-- ===== src/Util/Numbers.antt =====
-- Numbers that the user writes: `parseAmountAsNanos` of frontend/lib/util/util.ts and
-- frontend/lib/util/searchParams.tsx. A text is the list of its code points.
pub mod Digits
pub mod RoundTrip
pub mod Tests
use prosper.Prelude.{
  ℕ, ◌*◌, ◌+◌, ◌^◌, ◌-◌, Bool, true, false, ◌&&◌, ◌||◌, Option, none, some, List, [], ◌∷◌,
  if◌then◌else◌, leb, ltb, nat_beq,
}
use prosper.Prelude.Int.{ℤ, pos, neg_ℤ}
use prosper.Prelude.Text.{parse_digits, span_digits, is_digit}

-- `NANOS_PER_DOLLAR`
abbrev pub nanos_per_dollar : ℕ
nanos_per_dollar = 1_000_000_000

-- `BigInt(NANOS_PER_DOLLAR / 100)`
abbrev pub nanos_per_cent : ℕ
nanos_per_cent = 10_000_000

-- The second group of the pattern, `((\.|,)[0-9]{1,2})?$`: the hundredths, or none where the text
-- has no match.
unfoldable pub parse_fraction : List ℕ → Option ℕ
unfolding is_digit parse_digits
parse_fraction [] = some 0
parse_fraction (sep ∷ a ∷ []) =
    if (nat_beq sep b'.' || nat_beq sep b',') && is_digit a
    then some (parse_digits 0 (a ∷ b'0' ∷ []))
    else none
parse_fraction (sep ∷ a ∷ b ∷ []) =
    if (nat_beq sep b'.' || nat_beq sep b',') && is_digit a && is_digit b
    then some (parse_digits 0 (a ∷ b ∷ []))
    else none
parse_fraction _ = none

-- The value of the digits before the point and of what follows them.
unfoldable pub parse_parts : List ℕ → List ℕ → Option ℕ
unfolding parse_fraction parse_digits
parse_parts [] rest = none
parse_parts (c ∷ cs) rest = elim (parse_fraction rest) [
  | none ↦ none
  | some cents ↦ some (parse_digits 0 (c ∷ cs) * nanos_per_dollar + cents * nanos_per_cent)
]

-- What follows the sign.
unfoldable pub parse_unsigned : List ℕ → Option ℕ
unfolding span_digits parse_parts
parse_unsigned s = let (digits, rest) = span_digits s in parse_parts digits rest

-- `sign * nanos`
abbrev pub signed : Bool → ℕ → ℤ
signed true n = neg_ℤ (pos n)
signed false n = pos n

abbrev pub map_signed : Bool → Option ℕ → Option ℤ
map_signed negative none = none
map_signed negative (some n) = some (signed negative n)

unfoldable pub parse_amount_as_nanos : List ℕ → Option ℤ
unfolding parse_unsigned
parse_amount_as_nanos [] = map_signed false (parse_unsigned [])
parse_amount_as_nanos (c ∷ s) =
    if nat_beq c b'-'
    then map_signed true (parse_unsigned s)
    else map_signed false (parse_unsigned (c ∷ s))

-- `Number.MAX_SAFE_INTEGER`
abbrev pub max_safe_integer : ℕ
max_safe_integer = 9_007_199_254_740_991

-- The value of the digits of a text, if there are some and nothing follows them.
unfoldable pub whole_parts : List ℕ → List ℕ → Option ℕ
unfolding parse_digits
whole_parts [] rest = none
whole_parts (c ∷ cs) [] = some (parse_digits 0 (c ∷ cs))
whole_parts (c ∷ cs) (_ ∷ _) = none

-- The value of a text that matches `^\d+$`.
unfoldable pub whole_number : List ℕ → Option ℕ
unfolding span_digits whole_parts
whole_number s = let (digits, rest) = span_digits s in whole_parts digits rest

-- A text of digits has a whole value, so the tests for no number and for a fraction fail.
unfoldable pub positive_int_or_null : Option (List ℕ) → Option ℕ
unfolding whole_number
positive_int_or_null none = none
positive_int_or_null (some s) = elim (whole_number s) [
  | none ↦ none
  | some i ↦ (if ltb max_safe_integer i || leb i 0 then none else some i)
]

-- A parameter of a URL: absent, once or several times.
pub data Param : Type 0 where
  absent : Param
  one : List ℕ → Param
  several : List (List ℕ) → Param

unfoldable pub first_value_or_null : Param → Option (List ℕ)
first_value_or_null absent = none
first_value_or_null (one s) = some s
first_value_or_null (several []) = none
first_value_or_null (several (s ∷ _)) = some s

unfoldable pub first_positive_int_or_null : Param → Option ℕ
unfolding first_value_or_null positive_int_or_null
first_positive_int_or_null param = positive_int_or_null (first_value_or_null param)
