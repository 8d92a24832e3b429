-- ===== src/Client/Tests.antt =====
-- Tests of frontend/lib/ClientSideModel.tsx, and the theorems at concrete inputs.
use mathlib.Core.List.{Perm}
use prosper.Prelude.{
  ℕ, ◌≡◌, refl, false, some, none, List, [], ◌∷◌, map, map_result, find, ok, err, bank_not_found,
  nat_eq,
}
use prosper.Prelude.Int.{pos, neg_ℤ, ◌+ℤ◌, ◌*ℤ◌}
use prosper.Prelude.Sort.{IsSorted}
use prosper.Model.Ledger.{PbBank, PbBankAccount, PbTransaction, timestamp_to_epoch}
use prosper.Model.BankAccount.{bank_model_from_db, bank_account_model_from_db}
use prosper.Transaction.{Transaction, transfer}
use prosper.Transaction.FromDb.{
  transaction_model_from_db, convert, transfer_from_db, line_is, accounts_by_id, is_asset_type,
  bank_account_of,
}
use prosper.Versions.{latest_version_only}
use prosper.Balances.Tests.{ledger_accounts, pb_transfer, transfer_result}
use prosper.Client.{
  banks_model_from_database_data, TransactionDataModel, all_transactions_from_db, transaction_le,
}
use prosper.Client.Order.{all_transactions_in_order}

abbrev pub pb_bank : ℕ → ℕ → PbBank
pb_bank id order = record { id = id; name = "Bank"; display_order = pos order }

abbrev pub pb_account : ℕ → ℕ → PbBankAccount
pb_account id order = record {
  id = id;
  name = "Account";
  bank_id = id;
  currency_code = some "USD";
  stock = none;
  joint = false;
  archived = false;
  display_order = pos order;
  initial_balance_nanos = pos 0;
}

abbrev pb_banks : List PbBank
pb_banks = pb_bank 1 20 ∷ pb_bank 2 10 ∷ []

abbrev pb_accounts : List PbBankAccount
pb_accounts = pb_account 1 5 ∷ pb_account 2 6 ∷ []

-- The bank that comes first on the screen decides.
banks_first :
    banks_model_from_database_data pb_banks pb_accounts []
    ≡ ok (
      map bank_model_from_db (pb_bank 2 10 ∷ pb_bank 1 20 ∷ []),
      map bank_account_model_from_db (pb_account 2 6 ∷ pb_account 1 5 ∷ []),
      [],
    )
unfolding banks_model_from_database_data
banks_first = refl

no_bank : banks_model_from_database_data [] pb_accounts [] ≡ err bank_not_found
unfolding banks_model_from_database_data
no_bank = refl

abbrev transfer_model : TransactionDataModel
transfer_model = record { transactions = transfer transfer_result ∷ []; transaction_links = [] }

one_transfer : all_transactions_from_db (pb_transfer ∷ []) ledger_accounts [] ≡ ok transfer_model
unfolding all_transactions_from_db convert transfer_from_db line_is accounts_by_id is_asset_type
    find bank_account_of timestamp_to_epoch ◌+ℤ◌ neg_ℤ ◌*ℤ◌
one_transfer = refl

all_transactions_in_order_example :
    (active : List PbTransaction) × (converted : List Transaction) × (latest_version_only
        (pb_transfer ∷ [])
      ≡ ok active)
    × (map_result (λ tx. transaction_model_from_db tx ledger_accounts) active ≡ ok converted)
    × Perm transfer_model.transactions converted
    × IsSorted transaction_le transfer_model.transactions
all_transactions_in_order_example =
    all_transactions_in_order (pb_transfer ∷ []) ledger_accounts [] transfer_model one_transfer
