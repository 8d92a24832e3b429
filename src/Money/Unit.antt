-- ===== src/Money/Unit.antt =====
-- frontend/lib/AmountWithUnit.tsx: an amount in a unit, a currency or a stock.
use prosper.Prelude.{
  Bool, false, ◌&&◌, ◌==◌, string_eq, if◌then◌else◌, not, Result, ok, guard, unit_mismatch, ◌>>=◌,
  ◌>>◌, List, [], ◌∷◌,
}
use prosper.Prelude.Int.{ℤ}
use prosper.Model.Unit.{MoneyUnit, stock, currency}
use prosper.Money
use prosper.Money.{Amount}

pub record AmountWithUnit : Type 0 where
  pub amount : Amount
  pub unit : MoneyUnit

abbrev pub with_unit : Amount → MoneyUnit → AmountWithUnit
with_unit a u = record { amount = a; unit = u }

abbrev pub nanos : AmountWithUnit → ℤ
nanos a = a.amount.amount_nanos

unfoldable pub zero : MoneyUnit → AmountWithUnit
unfolding Money.zero_amount
zero u = with_unit Money.zero_amount u

-- The test of `assertSameUnit`.
unfoldable pub same_unit : MoneyUnit → MoneyUnit → Bool
same_unit (currency a) (currency b) = a.code == b.code
same_unit (stock a) (stock b) = a.exchange == b.exchange && a.ticker == b.ticker
same_unit _ _ = false

assert_same_unit : AmountWithUnit → AmountWithUnit → Result (Unit {0})
unfolding same_unit
assert_same_unit this that = guard (same_unit that.unit this.unit) unit_mismatch

unfoldable pub abs : AmountWithUnit → AmountWithUnit
unfolding Money.is_negative Money.abs
abs this =
    if Money.is_negative this.amount then with_unit (Money.abs this.amount) this.unit else this

unfoldable pub round : AmountWithUnit → AmountWithUnit
unfolding Money.round Money.is_round
round this =
    if not (Money.is_round this.amount) then with_unit (Money.round this.amount) this.unit else this

unfoldable pub add : AmountWithUnit → AmountWithUnit → Result AmountWithUnit
unfolding assert_same_unit Money.is_zero Money.add
add this other = do
  assert_same_unit this other
  if Money.is_zero other.amount
      then ok this
      else ok (with_unit (Money.add this.amount other.amount) this.unit)

unfoldable pub subtract : AmountWithUnit → AmountWithUnit → Result AmountWithUnit
unfolding assert_same_unit Money.is_zero Money.subtract
subtract this other = do
  assert_same_unit this other
  if Money.is_zero other.amount
      then ok this
      else ok (with_unit (Money.subtract this.amount other.amount) this.unit)

unfoldable pub equals : AmountWithUnit → AmountWithUnit → Result Bool
unfolding assert_same_unit Money.equals
equals this other = do assert_same_unit this other; ok (Money.equals this.amount other.amount)

unfoldable pub less_than : AmountWithUnit → AmountWithUnit → Result Bool
unfolding assert_same_unit Money.less_than
less_than this other = do assert_same_unit this other; ok (Money.less_than this.amount other.amount)

-- `amounts.reduce((p, c) => p.add(c))`, from the value so far.
unfoldable pub add_all : AmountWithUnit → List AmountWithUnit → Result AmountWithUnit
add_all p [] = ok p
add_all p (c ∷ cs) = do q ← add p c; add_all q cs

unfoldable pub sum : List AmountWithUnit → MoneyUnit → Result AmountWithUnit
unfolding zero add_all
sum [] unit = ok (zero unit)
sum (a ∷ amounts) unit = add_all a amounts
