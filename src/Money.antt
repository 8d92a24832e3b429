-- ===== src/Money.antt =====
-- frontend/lib/Amount.tsx: an amount of money in nanos. `dollar`, `fromDollar` and `format`, which
-- go through doubles and the Intl library, are not modelled; `round` rounds the exact quotient
-- where the code rounds its nearest double.
pub mod Rounding
pub mod Currency
pub mod Unit
use prosper.Prelude.{ℕ, Bool, true, false, if◌then◌else◌, not}
use prosper.Prelude.Int.{
  ℤ, pos, ◌+ℤ◌, ◌-ℤ◌, ◌*ℤ◌, neg_ℤ, ltb_ℤ, leb_ℤ, int_beq, rem_trunc, div_floor,
}

-- `NANOS_PER_UNIT`
abbrev pub nanos_per_unit : ℕ
nanos_per_unit = 1_000_000_000

pub record Amount : Type 0 where
  pub amount_nanos : ℤ

abbrev amount_of : ℤ → Amount
amount_of n = record { amount_nanos = n }

unfoldable pub zero_amount : Amount
zero_amount = amount_of (pos 0)

unfoldable pub is_zero : Amount → Bool
is_zero a = int_beq a.amount_nanos (pos 0)

unfoldable pub is_positive : Amount → Bool
is_positive a = ltb_ℤ (pos 0) a.amount_nanos

unfoldable pub is_negative : Amount → Bool
is_negative a = ltb_ℤ a.amount_nanos (pos 0)

unfoldable pub is_round : Amount → Bool
is_round a = int_beq (rem_trunc a.amount_nanos nanos_per_unit) (pos 0)

unfoldable pub abs : Amount → Amount
abs a = if leb_ℤ (pos 0) a.amount_nanos then a else amount_of (neg_ℤ a.amount_nanos)

unfoldable pub add : Amount → Amount → Amount
add this a = amount_of (this.amount_nanos +ℤ a.amount_nanos)

unfoldable pub subtract : Amount → Amount → Amount
subtract this a = amount_of (this.amount_nanos -ℤ a.amount_nanos)

unfoldable pub negate : Amount → Amount
negate this = amount_of (neg_ℤ this.amount_nanos)

unfoldable pub equals : Amount → Amount → Bool
equals this a = int_beq this.amount_nanos a.amount_nanos

unfoldable pub less_than : Amount → Amount → Bool
less_than this a = ltb_ℤ this.amount_nanos a.amount_nanos

-- `Math.round(this.dollar())`: the nearest whole number, and a tie goes up.
unfoldable pub round_dollar : ℤ → ℤ
round_dollar n = div_floor (n +ℤ pos 500_000_000) nanos_per_unit

unfoldable pub round : Amount → Amount
unfolding is_round round_dollar
round a =
    if not (is_round a) then amount_of (round_dollar a.amount_nanos *ℤ pos nanos_per_unit) else a
