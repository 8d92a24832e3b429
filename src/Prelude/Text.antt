-- ===== src/Prelude/Text.antt =====
-- The text functions of JavaScript that the program calls, on code points: a text that has no
-- broken surrogate pair is found in another by its code points as it is by its UTF-16 units.
use Prim.Native.Nat.{ℕ, zero, suc, ◌+◌, ◌-◌, ◌*◌, ◌/◌, ◌%◌, ◌<◌}
use Prim.Native.Char.{Char, code}
use Prim.Native.String.{String}
use mathlib.Core.Path.{◌≡◌, ap, ◌∙◌}
use mathlib.Core.Bool.{Bool, true, false, ◌&&◌, ◌||◌}
use mathlib.Core.List.{List, [], ◌∷◌}
use native.Mathlib.Omega.{arith}
use prosper.Prelude.Tests.{ltb, leb, nat_beq, if◌then◌else◌, Bool-cases}
use prosper.Prelude.Lists.{any}
use mathlib.Core.Logic.{inl, inr}

abbrev pub codes : String → List ℕ
codes String.[] = []
codes (String.◌∷◌ c s) = code c ∷ codes s

unfoldable pub is_prefix : List ℕ → List ℕ → Bool
is_prefix [] text = true
is_prefix (c ∷ cs) [] = false
is_prefix (c ∷ cs) (d ∷ ds) = nat_beq c d && is_prefix cs ds

unfoldable pub has_infix : List ℕ → List ℕ → Bool
unfolding is_prefix
has_infix part [] = is_prefix part []
has_infix part (c ∷ text) = is_prefix part (c ∷ text) || has_infix part text

-- `text.includes(part)`
unfoldable pub text_includes : String → String → Bool
unfolding has_infix
text_includes text part = has_infix (codes part) (codes text)

-- `a == b` on texts, by their codes.
unfoldable pub same_codes : List ℕ → List ℕ → Bool
same_codes [] [] = true
same_codes [] (d ∷ ds) = false
same_codes (c ∷ cs) [] = false
same_codes (c ∷ cs) (d ∷ ds) = nat_beq c d && same_codes cs ds

-- What `trim` takes off: the white space and the line ends of the language.
unfoldable pub is_space : ℕ → Bool
unfolding any
is_space c =
    leb 9 c && leb c 13
    || leb 0x2000 c && leb c 0x200A
    || any (nat_beq c)
        (32 ∷ 160 ∷ 0x1680 ∷ 0x2028 ∷ 0x2029 ∷ 0x202F ∷ 0x205F ∷ 0x3000 ∷ 0xFEFF ∷ [])

-- `!s.trim()`
unfoldable pub all_space : List ℕ → Bool
unfolding is_space
all_space [] = true
all_space (c ∷ cs) = is_space c && all_space cs

unfoldable pub is_blank : String → Bool
unfolding all_space
is_blank s = all_space (codes s)

-- `s.trim()`
trim_start : String → String
unfolding is_space
trim_start String.[] = String.[]
trim_start (String.◌∷◌ c s) = if is_space (code c) then trim_start s else String.◌∷◌ c s

-- `rest` with `c` before it, unless that is white space at the end.
abbrev put_before : Char → String → String
unfolding is_space
put_before c String.[] = if is_space (code c) then String.[] else String.◌∷◌ c String.[]
put_before c (String.◌∷◌ d s) = String.◌∷◌ c (String.◌∷◌ d s)

trim_end : String → String
unfolding put_before
trim_end String.[] = String.[]
trim_end (String.◌∷◌ c s) = put_before c (trim_end s)

unfoldable pub trim : String → String
unfolding trim_start trim_end
trim s = trim_end (trim_start s)

unfoldable pub is_digit : ℕ → Bool
is_digit c = leb b'0' c && leb c b'9'

-- `n.toString()` of a whole number, on fuel: the digits of `n`, then `rest`.
unfoldable pub digits_from : ℕ → ℕ → List ℕ → List ℕ
digits_from zero n rest = rest
digits_from (suc fuel) n rest =
    let more = digits_from fuel (n / 10) ((b'0' + n % 10) ∷ rest) in
    if ltb n 10 then (b'0' + n % 10) ∷ rest else more

unfoldable pub to_decimal : ℕ → List ℕ
unfolding digits_from
to_decimal n = digits_from (suc n) n []

-- `BigInt` and `parseInt` of decimal digits.
unfoldable pub parse_digits : ℕ → List ℕ → ℕ
parse_digits acc [] = acc
parse_digits acc (c ∷ cs) = parse_digits (acc * 10 + (c - b'0')) cs

-- The digits at the front, and what follows them.
unfoldable pub span_digits : List ℕ → List ℕ × List ℕ
unfolding is_digit
span_digits [] = ([], [])
span_digits (c ∷ cs) =
    let more = span_digits cs in if is_digit c then (c ∷ more.0, more.1) else ([], c ∷ cs)

pub parse_digits-digits_from :
    (fuel n : ℕ) (rest : List ℕ)
    → n < fuel
    → parse_digits 0 (digits_from fuel n rest) ≡ parse_digits n rest
unfolding digits_from parse_digits
parse_digits-digits_from zero n rest h = elim h [ ]
parse_digits-digits_from (suc fuel) n rest h = elim (Bool-cases (ltb n 10)) [
  | inl small ↦ rw small (ap (λ m. parse_digits m rest) (ground arith))
  | inr large ↦ rw large (
      parse_digits-digits_from fuel (n / 10) ((b'0' + n % 10) ∷ rest) (ground arith)
      ∙ ap (λ m. parse_digits m rest) (ground arith))
]

-- What is printed is read back.
pub parse_digits-to_decimal : (n : ℕ) → parse_digits 0 (to_decimal n) ≡ n
unfolding to_decimal parse_digits
parse_digits-to_decimal n = parse_digits-digits_from (suc n) n [] (omega arith)
