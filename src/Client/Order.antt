-- ===== src/Client/Order.antt =====
-- `banksModelFromDatabaseData` of frontend/lib/ClientSideModel.tsx as a whole.
use mathlib.Core.List.{Perm}
use mathlib.Core.List.Perm
use prosper.Prelude.{
  ℕ, arith, ◌≡◌, subst, some, List, map, All, nat_eq, ok, map_result, >>=-eq-ok, if◌then◌else◌, leb,
  ◌==◌, true, false,
}
use prosper.Prelude.Int.{ℤ, leb_ℤ, int_eq}
use prosper.Transaction.{Transaction, id_of, epoch_of}
use prosper.Transaction.FromDb.{transaction_model_from_db}
use prosper.Versions.{latest_version_only}
use prosper.Links.{transaction_link_model_from_db}
use prosper.Prelude.Maps.{Assoc, lookup}
use prosper.Prelude.Sort.{sort, IsSorted, sort-perm, sort-IsSorted}
use prosper.Model.Ledger.{PbTransaction, PbTransactionLink, LedgerAccount}
use prosper.Model.BankAccount.{Bank, BankAccount}
use prosper.Client.{TransactionDataModel, all_transactions_from_db, transaction_le, account_le}

-- Accounts in the order of the screen, each with the bank that it belongs to.
pub record Shown (by_bank : Assoc ℕ Bank) (accounts : List BankAccount) : Type 0 where
  pub ranked : List (Bank × BankAccount)
  pub every_account : Perm (map (λ r. r.1) ranked) accounts
  pub sorted : IsSorted account_le ranked
  pub own_banks : All (λ r. lookup r.1.bank_id by_bank ≡ some r.0) ranked

transaction_le_total : (a b : Transaction) → transaction_le a b ≡ false → transaction_le b a ≡ true
unfolding transaction_le
transaction_le_total a b h = total (epoch_of a) (epoch_of b) (id_of a) (id_of b) h
  where
    total :
        (s t : ℤ) (i j : ℕ)
        → (if t == s then leb j i else leb_ℤ t s) ≡ false
        → (if s == t then leb i j else leb_ℤ s t) ≡ true
    total s t i j h = ground arith

transaction_le_trans :
    (a b c : Transaction)
    → transaction_le a b ≡ true
    → transaction_le b c ≡ true
    → transaction_le a c ≡ true
unfolding transaction_le
transaction_le_trans a b c h k =
    trans (epoch_of a) (epoch_of b) (epoch_of c) (id_of a) (id_of b) (id_of c) h k
  where
    trans :
        (s t u : ℤ) (i j k : ℕ)
        → (if t == s then leb j i else leb_ℤ t s) ≡ true
        → (if u == t then leb k j else leb_ℤ u t) ≡ true
        → (if u == s then leb k i else leb_ℤ u s) ≡ true
    trans s t u i j k h h' = ground arith

-- The transactions of the model are the conversions of the latest versions, each once, the later
-- ones first and among those of the same time the ones with the higher id.
pub all_transactions_in_order :
    (db_transactions : List PbTransaction) (ledger_accounts : List LedgerAccount)
    (links : List PbTransactionLink) (model : TransactionDataModel)
    → all_transactions_from_db db_transactions ledger_accounts links ≡ ok model
    → (active : List PbTransaction) × (converted : List Transaction) × (latest_version_only
          db_transactions
        ≡ ok active)
      × (map_result (λ tx. transaction_model_from_db tx ledger_accounts) active ≡ ok converted)
      × Perm model.transactions converted
      × IsSorted transaction_le model.transactions
unfolding all_transactions_from_db
all_transactions_in_order db_transactions ledger_accounts links model h =
    let (active, latest, later) = >>=-eq-ok (latest_version_only db_transactions) _ h in
    let (converted, each, last) =
      >>=-eq-ok (map_result (λ tx. transaction_model_from_db tx ledger_accounts) active) _ later in
    let (linked, found, made) =
      >>=-eq-ok
        (transaction_link_model_from_db links (sort transaction_le converted) db_transactions) _
        last in
    let same : sort transaction_le converted ≡ model.transactions = cc in
    (
      active,
      converted,
      latest,
      each,
      subst (λ l. Perm l converted) same (sort-perm transaction_le converted),
      subst (IsSorted transaction_le) same
          (sort-IsSorted transaction_le transaction_le_total transaction_le_trans converted),
    )
