-- ===== src/Links.antt =====
-- frontend/lib/model/TransactionLink.tsx: the refunds and the settled debts among the
-- transactions, from the links of the ledger.
--
-- The set of superseded ids is the one of Versions, since the code builds it from the same fields.
pub mod Refunds
pub mod Tests
use prosper.Prelude.{
  ℕ, Bool, ◌||◌, Option, none, some, List, [], ◌∷◌, ◌++◌, map, nat_eq, if◌then◌else◌, Result, ok,
  err, or_throw, ◌>>=◌, source_not_found, linked_not_found, not_an_expense, not_an_income,
  not_third_party, not_personal,
}
use prosper.Prelude.Maps.{Assoc, values, lookup, insert, from_entries}
use prosper.Model.Ledger.{PbTransaction, PbTransactionLink, LinkType}
use prosper.Transaction.{
  Transaction, Income, PersonalExpense, ThirdPartyExpense, personal_expense, third_party_expense,
  income, id_of, Expense, personal, third_party,
}
use prosper.Versions.{superseded_ids, has}

pub record DebtSettling : Type 0 where
  pub id : ℕ
  pub expense : ThirdPartyExpense
  pub repayment : PersonalExpense

pub record Refund : Type 0 where
  pub id : ℕ
  pub expense : Expense
  pub refunds : List Income

pub data TransactionLink : Type 0 where
  debt_settling : DebtSettling → TransactionLink
  refund : Refund → TransactionLink

-- The guards that narrow a transaction to a kind.
abbrev pub as_expense : Transaction → Option Expense
as_expense (personal_expense t) = some (personal t)
as_expense (third_party_expense t) = some (third_party t)
as_expense _ = none

abbrev pub as_income : Transaction → Option Income
as_income (income t) = some t
as_income _ = none

abbrev pub as_third_party : Transaction → Option ThirdPartyExpense
as_third_party (third_party_expense t) = some t
as_third_party _ = none

abbrev pub as_personal : Transaction → Option PersonalExpense
as_personal (personal_expense t) = some t
as_personal _ = none

unfoldable pub find_source_and_linked :
    PbTransactionLink → Assoc ℕ Transaction → Result (Transaction × Transaction)
unfolding lookup
find_source_and_linked l transaction_by_id = do
  source ← or_throw (lookup l.source_transaction_id transaction_by_id) source_not_found
  linked ← or_throw (lookup l.linked_transaction_id transaction_by_id) linked_not_found
  ok (source, linked)

-- `refunds` and `debts` of the loop.
pub record Found : Type 0 where
  pub refunds : Assoc ℕ Refund
  pub debts : Assoc ℕ DebtSettling

-- The refund of a source, a new one if there is none.
unfoldable pub refund_for : ℕ → Transaction → Option Refund → Result Refund
refund_for id source (some r) = ok r
refund_for id source none = do
  expense ← or_throw (as_expense source) not_an_expense
  ok (record { id = id; expense = expense; refunds = [] })

unfoldable pub add_refund : ℕ → Transaction → Transaction → Found → Result Found
unfolding refund_for lookup insert
add_refund id source linked found = do
  r ← refund_for id source (lookup (id_of source) found.refunds)
  back ← or_throw (as_income linked) not_an_income
  ok (record found {
    refunds = insert (id_of source) (record r { refunds = r.refunds ++ back ∷ [] }) found.refunds;
  })

unfoldable pub add_debt : ℕ → Transaction → Transaction → Found → Result Found
unfolding insert
add_debt id source linked found = do
  expense ← or_throw (as_third_party source) not_third_party
  repayment ← or_throw (as_personal linked) not_personal
  ok (record found {
    debts =
        insert (id_of source) (record { id = id; expense = expense; repayment = repayment })
          found.debts;
  })

-- The `switch` on the type of the link; it has no case for an unspecified one.
unfoldable pub add_by_type : LinkType → ℕ → Transaction → Transaction → Found → Result Found
unfolding add_refund add_debt
add_by_type LinkType.refund id source linked found = add_refund id source linked found
add_by_type LinkType.debt_settling id source linked found = add_debt id source linked found
add_by_type LinkType.unspecified id source linked found = ok found

-- Whether either side of the link is superseded.
unfoldable pub is_skipped : List ℕ → PbTransactionLink → Bool
unfolding has
is_skipped superseded l =
    has superseded l.source_transaction_id || has superseded l.linked_transaction_id

-- One round of the loop.
unfoldable pub add_link : List ℕ → Assoc ℕ Transaction → PbTransactionLink → Found → Result Found
unfolding is_skipped find_source_and_linked add_by_type
add_link superseded transaction_by_id l found =
    if is_skipped superseded l
    then ok found
    else (find_source_and_linked l transaction_by_id >>= λ sides.
        add_by_type l.link_type l.id sides.0 sides.1 found)

unfoldable pub add_links :
    List ℕ → Assoc ℕ Transaction → List PbTransactionLink → Found → Result Found
unfolding add_link
add_links superseded transaction_by_id [] found = ok found
add_links superseded transaction_by_id (l ∷ links) found = do
  found' ← add_link superseded transaction_by_id l found
  add_links superseded transaction_by_id links found'

-- `new Map(allTransactions.map(t => [t.id, t]))`
unfoldable pub by_id : List Transaction → Assoc ℕ Transaction
unfolding from_entries
by_id all = from_entries (map (λ (t : Transaction). (id_of t, t)) all) []

abbrev pub nothing_found : Found
nothing_found = record { refunds = []; debts = [] }

unfoldable pub transaction_link_model_from_db :
    List PbTransactionLink → List Transaction → List PbTransaction → Result (List TransactionLink)
unfolding superseded_ids add_links by_id
transaction_link_model_from_db db_links all_transactions db_transactions = do
  found ← add_links (superseded_ids db_transactions) (by_id all_transactions) db_links nothing_found
  ok (map (λ r. refund r) (values found.refunds) ++ map (λ d. debt_settling d) (values found.debts))
