-- ===== src/Transaction/Amounts.antt =====
-- frontend/lib/model/transaction/amounts.tsx: what was paid in total, the own share of it, and
-- both in the display currency.
pub mod Shares
pub mod Tests
use prosper.Prelude.{String, Option, List, map, Result, ok, ◌>>=◌}
use prosper.Prelude.Int.{ℤ, ◌-ℤ◌, pos, sum_from}
use prosper.Model.Currency.{Currency}
use prosper.Model.Stock.{Stock}
use prosper.Model.Unit.{MoneyUnit, stock, currency}
use prosper.Model.BankAccount.{BankAccount}
use prosper.Money.{Amount}
use prosper.Money.Currency.{AmountWithCurrency, with_currency}
use prosper.Money.Unit.{AmountWithUnit, with_unit}
use prosper.Market.{Exchange, exchange_currency, exchange_stock}
use prosper.Transaction.{
  TransactionCompanion, ExpenseOrIncome, personal, third_party, of_expense, of_income,
}
use prosper.Transaction.Accessors.{transaction_unit, companions_in}

abbrev pub amount_of : ExpenseOrIncome → ℤ
amount_of (of_expense (personal t)) = t.amount_nanos
amount_of (of_expense (third_party t)) = t.amount_nanos
amount_of (of_income t) = t.amount_nanos

abbrev pub time_of : ExpenseOrIncome → ℤ
time_of (of_expense (personal t)) = t.timestamp_epoch
time_of (of_expense (third_party t)) = t.timestamp_epoch
time_of (of_income t) = t.timestamp_epoch

-- What the others owe or get.
abbrev pub shares_of : ExpenseOrIncome → List ℤ
shares_of t = map (λ (c : TransactionCompanion). c.amount_nanos) (companions_in t)

unfoldable pub own_share_amount_nanos_ignore_refunds : ExpenseOrIncome → ℤ
unfolding sum_from
own_share_amount_nanos_ignore_refunds t = amount_of t -ℤ sum_from (pos 0) (shares_of t)

unfoldable pub paid_total : ExpenseOrIncome → List BankAccount → List Stock → Result AmountWithUnit
unfolding transaction_unit
paid_total t bank_accounts stocks = do
  unit ← transaction_unit t bank_accounts stocks
  ok (with_unit (record { amount_nanos = amount_of t }) unit)

unfoldable pub own_share_amount_ignore_refunds :
    ExpenseOrIncome → List BankAccount → List Stock → Result AmountWithUnit
unfolding own_share_amount_nanos_ignore_refunds transaction_unit
own_share_amount_ignore_refunds t bank_accounts stocks = do
  unit ← transaction_unit t bank_accounts stocks
  ok (with_unit (record { amount_nanos = own_share_amount_nanos_ignore_refunds t }) unit)

module _ (closest_to : ℤ → List ℤ → Option ℤ) where
  -- The two tests on the unit. A unit is a currency or a stock, so the code's last throw, for an
  -- unknown unit, has no case here.
  unfoldable pub convert_by_unit :
      Exchange → MoneyUnit → Amount → Currency → ℤ → Result (Option AmountWithCurrency)
  unfolding exchange_currency exchange_stock
  convert_by_unit x (currency c) a target when =
      ok (exchange_currency closest_to x.exchange_rates (with_currency a c) target when)
  convert_by_unit x (stock s) a target when = exchange_stock closest_to x a s target when

  unfoldable pub amount_all_parties :
      ExpenseOrIncome
      → Currency
      → List BankAccount
      → List Stock
      → Exchange
      → Result (Option AmountWithCurrency)
  unfolding transaction_unit convert_by_unit
  amount_all_parties t target bank_accounts stocks x = do
    unit ← transaction_unit t bank_accounts stocks
    convert_by_unit x unit (record { amount_nanos = amount_of t }) target (time_of t)

  unfoldable pub amount_own_share :
      ExpenseOrIncome
      → Currency
      → List BankAccount
      → List Stock
      → Exchange
      → Result (Option AmountWithCurrency)
  unfolding transaction_unit convert_by_unit own_share_amount_nanos_ignore_refunds
  amount_own_share t target bank_accounts stocks x = do
    unit ← transaction_unit t bank_accounts stocks
    convert_by_unit x unit (record { amount_nanos = own_share_amount_nanos_ignore_refunds t })
        target (time_of t)
