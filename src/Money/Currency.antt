-- ===== src/Money/Currency.antt =====
-- frontend/lib/AmountWithCurrency.tsx: an amount in a currency; arithmetic across currencies
-- throws.
use prosper.Prelude.{
  Bool, ◌==◌, string_eq, if◌then◌else◌, not, Result, ok, guard, currency_mismatch, ◌>>◌,
}
use prosper.Prelude.Int.{ℤ}
use prosper.Model.Currency.{Currency}
use prosper.Money
use prosper.Money.{Amount}

pub record AmountWithCurrency : Type 0 where
  pub amount : Amount
  pub currency : Currency

abbrev pub with_currency : Amount → Currency → AmountWithCurrency
with_currency a c = record { amount = a; currency = c }

abbrev pub nanos : AmountWithCurrency → ℤ
nanos a = a.amount.amount_nanos

unfoldable pub zero : Currency → AmountWithCurrency
unfolding Money.zero_amount
zero c = with_currency Money.zero_amount c

unfoldable pub assert_same_currency : AmountWithCurrency → AmountWithCurrency → Result (Unit {0})
assert_same_currency this a = guard (a.currency.code == this.currency.code) currency_mismatch

unfoldable pub abs : AmountWithCurrency → AmountWithCurrency
unfolding Money.is_negative Money.abs
abs this =
    if Money.is_negative this.amount
    then with_currency (Money.abs this.amount) this.currency
    else this

unfoldable pub negate : AmountWithCurrency → AmountWithCurrency
unfolding Money.negate
negate this = with_currency (Money.negate this.amount) this.currency

unfoldable pub round : AmountWithCurrency → AmountWithCurrency
unfolding Money.round Money.is_round
round this =
    if not (Money.is_round this.amount)
    then with_currency (Money.round this.amount) this.currency
    else this

unfoldable pub add : AmountWithCurrency → AmountWithCurrency → Result AmountWithCurrency
unfolding assert_same_currency Money.add
add this other = do
  assert_same_currency this other
  ok (with_currency (Money.add this.amount other.amount) this.currency)

unfoldable pub subtract : AmountWithCurrency → AmountWithCurrency → Result AmountWithCurrency
unfolding assert_same_currency Money.subtract
subtract this other = do
  assert_same_currency this other
  ok (with_currency (Money.subtract this.amount other.amount) this.currency)

unfoldable pub equals : AmountWithCurrency → AmountWithCurrency → Result Bool
unfolding assert_same_currency Money.equals
equals this other = do assert_same_currency this other; ok (Money.equals this.amount other.amount)

unfoldable pub less_than : AmountWithCurrency → AmountWithCurrency → Result Bool
unfolding assert_same_currency Money.less_than
less_than this other = do
  assert_same_currency this other
  ok (Money.less_than this.amount other.amount)
