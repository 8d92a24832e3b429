-- ===== src/Stats.antt =====
-- Transactions in the display currency, which the pages of statistics show:
-- frontend/lib/ExchangedTransactions.tsx and frontend/app/(authenticated)/stats/modelHelpers.tsx. The
-- contexts that the hooks read are arguments.
pub mod Display
pub mod Partition
pub mod Series
pub mod Tests
use prosper.Prelude.{
  ℕ, Bool, true, false, not, Option, none, some, List, [], ◌∷◌, ◌++◌, map, keep, any, ◌==◌, nat_eq,
  string_eq, Result, ok, err, guard, ◌>>◌, ◌>>=◌, or_throw, find, currency_mismatch, map_result,
  category_not_found,
}
use prosper.Prelude.Int.{ℤ}
use prosper.Category.{Category, CategoryTree, CategoryTreeNode, get_descendants, make_category_tree}
use prosper.Model.BankAccount.{BankAccount}
use prosper.Model.Currency.{Currency}
use prosper.Model.Stock.{Stock}
use prosper.Money.Currency.{AmountWithCurrency, zero}
use prosper.Market.{Exchange}
use prosper.Transaction.{
  Transaction, Transfer, Income, Expense, ExpenseOrIncome, personal, third_party, of_expense,
  of_income, personal_expense, third_party_expense, transfer, income, opening_balance, epoch_of,
}
use prosper.Transaction.Amounts.{amount_own_share, amount_all_parties}

-- `ExchangedTransaction`, `ExchangedExpense` and `ExchangedIncome`, which differ in the type of the
-- transaction.
pub record Exchanged (T : Type 0) : Type 0 where
  pub t : T
  pub own_share : AmountWithCurrency
  pub all_parties : AmountWithCurrency

pub record ExchangedTransactions : Type 0 where
  pub exchanged : List (Exchanged Transaction)
  pub currency : Currency

-- The loop of the constructor.
unfoldable pub check_currencies : Currency → List (Exchanged Transaction) → Result (Unit {0})
check_currencies c [] = ok tt
check_currencies c (x ∷ xs) =
    guard (x.own_share.currency.code == c.code) currency_mismatch
    >> guard (x.all_parties.currency.code == c.code) currency_mismatch
    >> check_currencies c xs

unfoldable pub new_exchanged_transactions :
    List (Exchanged Transaction) → Currency → Result ExchangedTransactions
unfolding check_currencies
new_exchanged_transactions exchanged c =
    check_currencies c exchanged >> ok (record { exchanged = exchanged; currency = c })

-- `{...x, t: x.t}`
abbrev pub with_t : {T : Type 0} → Exchanged Transaction → T → Exchanged T
with_t x t = record { t = t; own_share = x.own_share; all_parties = x.all_parties }

unfoldable pub expenses_in : List (Exchanged Transaction) → List (Exchanged Expense)
expenses_in [] = []
expenses_in (x ∷ xs) = elim x.t [
  | personal_expense t ↦ with_t x (personal t) ∷ expenses_in xs
  | third_party_expense t ↦ with_t x (third_party t) ∷ expenses_in xs
  | transfer _ ↦ expenses_in xs
  | income _ ↦ expenses_in xs
  | opening_balance _ ↦ expenses_in xs
]

unfoldable pub income_in : List (Exchanged Transaction) → List (Exchanged Income)
income_in [] = []
income_in (x ∷ xs) = elim x.t [
  | income t ↦ with_t x t ∷ income_in xs
  | personal_expense _ ↦ income_in xs
  | third_party_expense _ ↦ income_in xs
  | transfer _ ↦ income_in xs
  | opening_balance _ ↦ income_in xs
]

unfoldable pub transfers_in : List (Exchanged Transaction) → List Transfer
transfers_in [] = []
transfers_in (x ∷ xs) = elim x.t [
  | transfer t ↦ t ∷ transfers_in xs
  | personal_expense _ ↦ transfers_in xs
  | third_party_expense _ ↦ transfers_in xs
  | income _ ↦ transfers_in xs
  | opening_balance _ ↦ transfers_in xs
]

-- `Interval` of date-fns, and the class for one interval.
pub record Interval : Type 0 where
  pub start : ℤ
  pub end_ : ℤ

pub record ExchangedIntervalTransactions : Type 0 where
  pub all : ExchangedTransactions
  pub interval : Interval

abbrev pub expense_time : Expense → ℤ
expense_time (personal t) = t.timestamp_epoch
expense_time (third_party t) = t.timestamp_epoch

-- `isWithinInterval` of date-fns.
module _ (is_within_interval : ℤ → Interval → Bool) where
  unfoldable pub interval_expenses : ExchangedIntervalTransactions → List (Exchanged Expense)
  unfolding keep expenses_in
  interval_expenses input =
      keep (λ (x : Exchanged Expense). is_within_interval (expense_time x.t) input.interval)
        (expenses_in input.all.exchanged)

  unfoldable pub interval_income : ExchangedIntervalTransactions → List (Exchanged Income)
  unfolding keep income_in
  interval_income input =
      keep (λ (x : Exchanged Income). is_within_interval x.t.timestamp_epoch input.interval)
        (income_in input.all.exchanged)

-- `failed` and `exchanged` of the loop.
pub record Split : Type 0 where
  pub failed : List Transaction
  pub exchanged : List (Exchanged Transaction)

abbrev pub nothing_split : Split
nothing_split = record { failed = []; exchanged = [] }

abbrev pub fail : Transaction → Split → Split
fail t s = record s { failed = s.failed ++ t ∷ [] }

abbrev pub push : Exchanged Transaction → Split → Split
push x s = record s { exchanged = s.exchanged ++ x ∷ [] }

abbrev pub exchanged_as :
    Transaction → AmountWithCurrency → AmountWithCurrency → Exchanged Transaction
exchanged_as t own all = record { t = t; own_share = own; all_parties = all }

module _ (closest_to : ℤ → List ℤ → Option ℤ) (bank_accounts : List BankAccount)
    (stocks : List Stock) (exchange : Exchange) (display_currency : Currency) where
  abbrev pub own_of : ExpenseOrIncome → Result (Option AmountWithCurrency)
  own_of e = amount_own_share closest_to e display_currency bank_accounts stocks exchange

  abbrev pub all_of : ExpenseOrIncome → Result (Option AmountWithCurrency)
  all_of e = amount_all_parties closest_to e display_currency bank_accounts stocks exchange

  -- What the loop does once it has the own share, and once it has both amounts.
  unfoldable pub split_amounts :
      Transaction → Split → Option AmountWithCurrency → Option AmountWithCurrency → Split
  split_amounts t s (some own) (some all) = push (exchanged_as t own all) s
  split_amounts t s _ _ = fail t s

  unfoldable pub split_own :
      Transaction → ExpenseOrIncome → Split → Option AmountWithCurrency → Result Split
  unfolding split_amounts
  split_own t e s none = ok (fail t s)
  split_own t e s (some own) = do all ← all_of e; ok (split_amounts t s (some own) all)

  -- One round of the loop.
  unfoldable pub split_one : Transaction → Split → Result Split
  unfolding split_own zero
  split_one (transfer t) s =
      ok (push (exchanged_as (transfer t) (zero display_currency) (zero display_currency)) s)
  split_one (opening_balance t) s =
      ok (push (exchanged_as (opening_balance t) (zero display_currency) (zero display_currency)) s)
  split_one (personal_expense t) s = do
    own ← own_of (of_expense (personal t))
    split_own (personal_expense t) (of_expense (personal t)) s own
  split_one (third_party_expense t) s = do
    own ← own_of (of_expense (third_party t))
    split_own (third_party_expense t) (of_expense (third_party t)) s own
  split_one (income t) s = do own ← own_of (of_income t); split_own (income t) (of_income t) s own

  unfoldable pub split_all : List Transaction → Split → Result Split
  unfolding split_one
  split_all [] s = ok s
  split_all (t ∷ ts) s = do s' ← split_one t s; split_all ts s'

  -- `useExchangedTransactions`: the input of a page, and the transactions that failed.
  unfoldable pub use_exchanged_transactions :
      List Transaction → Result (ExchangedTransactions × List Transaction)
  unfolding split_all new_exchanged_transactions
  use_exchanged_transactions transactions = do
    s ← split_all transactions nothing_split
    input ← new_exchanged_transactions s.exchanged display_currency
    ok (input, s.failed)

  -- `useExchangedIntervalTransactions`
  unfoldable pub use_exchanged_interval_transactions :
      List Transaction → Interval → Result (ExchangedIntervalTransactions × List Transaction)
  unfolding use_exchanged_transactions new_exchanged_transactions
  use_exchanged_interval_transactions transactions duration = do
    (input, failed) ← use_exchanged_transactions transactions
    input' ← new_exchanged_transactions input.exchanged input.currency
    ok (record { all = input'; interval = duration }, failed)
