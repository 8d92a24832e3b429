-- ===== src/Util/Numbers/RoundTrip.antt =====
-- What is printed is read back.
use mathlib.Core.List.{append-nil}
use prosper.Prelude.{
  ℕ, suc, ◌+◌, ◌*◌, ◌/◌, ◌%◌, ◌<◌, ◌≤◌, ◌≡◌, refl, sym, ap, ◌∙◌, subst, true, false, Bool-cases,
  Bool, ◌||◌, none, some, List, [], ◌∷◌, ◌++◌, arith, ltb, leb, if◌then◌else◌, inl, inr, ◌⊎◌,
}
use prosper.Prelude.Int.{ℤ, pos, negsuc, ◌*ℤ◌, neg_ℤ}
use prosper.Prelude.Text.{to_decimal, span_digits, is_digit, parse_digits, parse_digits-to_decimal}
use prosper.Util.Numbers.{
  parse_amount_as_nanos, parse_parts, parse_unsigned, parse_fraction, map_signed, nanos_per_dollar,
  nanos_per_cent, whole_number, whole_parts, positive_int_or_null, max_safe_integer,
}
use prosper.Util.Numbers.Digits.{
  IsDigits, to_decimal-IsDigits, to_decimal-cons, span_digits-append, AfterDigits,
}

-- A decimal separator.
abbrev pub separator : Bool → ℕ
separator true = b','
separator false = b'.'

-- Whole units, a separator and two digits for the hundredths.
abbrev pub print_unsigned : Bool → ℕ → List ℕ
print_unsigned comma cents =
    to_decimal (cents / 100)
    ++ separator comma ∷ (b'0' + cents % 100 / 10) ∷ (b'0' + cents % 10) ∷ []

-- With a minus in front of a negative number of hundredths.
abbrev pub print_cents : Bool → ℤ → List ℕ
print_cents comma (pos n) = print_unsigned comma n
print_cents comma (negsuc n) = b'-' ∷ print_unsigned comma (suc n)

parse_fraction-digits :
    (comma : Bool) (n : ℕ)
    → parse_fraction (separator comma ∷ (b'0' + n % 100 / 10) ∷ (b'0' + n % 10) ∷ [])
      ≡ some (n % 100)
unfolding parse_fraction
parse_fraction-digits true n = ground arith
parse_fraction-digits false n = ground arith

separator_after : (comma : Bool) (l : List ℕ) → AfterDigits (separator comma ∷ l)
unfolding is_digit
separator_after true l = refl
separator_after false l = refl

parse_parts-some :
    (ds rest : List ℕ) (c : ℕ) (cs : List ℕ) (cents : ℕ)
    → ds ≡ c ∷ cs
    → parse_fraction rest ≡ some cents
    → parse_parts ds rest ≡ some (parse_digits 0 ds * nanos_per_dollar + cents * nanos_per_cent)
unfolding parse_parts
parse_parts-some ds rest c cs cents e h = rw e (rw (h, parse_parts) refl)

parse_unsigned-print :
    (comma : Bool) (n : ℕ) → parse_unsigned (print_unsigned comma n) ≡ some (n * nanos_per_cent)
unfolding parse_unsigned
parse_unsigned-print comma n =
    let (c, cs, e) = to_decimal-cons (n / 100) in
    let tail : List ℕ = separator comma ∷ (b'0' + n % 100 / 10) ∷ (b'0' + n % 10) ∷ [] in
    let spanned =
      span_digits-append (to_decimal (n / 100)) tail (to_decimal-IsDigits (n / 100))
        (separator_after comma ((b'0' + n % 100 / 10) ∷ (b'0' + n % 10) ∷ [])) in
    rw spanned (
      parse_parts-some (to_decimal (n / 100)) tail c cs (n % 100) e (parse_fraction-digits comma n)
      ∙ ap some (omega (arith, parse_digits-to_decimal (n / 100))))

-- The text of an unsigned number begins with no minus.
no_minus :
    (comma : Bool) (n : ℕ)
    → parse_amount_as_nanos (print_unsigned comma n)
      ≡ map_signed false (parse_unsigned (print_unsigned comma n))
unfolding parse_amount_as_nanos is_digit
no_minus comma n =
    let (c, cs, e) = to_decimal-cons (n / 100) in
    let digit : is_digit c ≡ true =
      first_digit c cs (to_decimal (n / 100)) e (to_decimal-IsDigits (n / 100)) in
    rw e (ground arith)
  where
    first_digit : (c : ℕ) (cs ds : List ℕ) → ds ≡ c ∷ cs → IsDigits ds → is_digit c ≡ true
    first_digit c cs ds e h = (subst IsDigits e h).0

-- An amount of whole hundredths that is printed with a point or a comma and two digits is read back
-- exactly.
pub parse_amount_as_nanos-print_cents :
    (comma : Bool) (cents : ℤ)
    → parse_amount_as_nanos (print_cents comma cents) ≡ some (cents *ℤ pos nanos_per_cent)
unfolding parse_amount_as_nanos ◌*ℤ◌ neg_ℤ
parse_amount_as_nanos-print_cents comma (pos n) =
    no_minus comma n ∙ rw (parse_unsigned-print comma n) (ground arith)
parse_amount_as_nanos-print_cents comma (negsuc n) =
    minus (print_unsigned comma (suc n)) ∙ rw (parse_unsigned-print comma (suc n)) (ground arith)
  where
    minus : (l : List ℕ) → parse_amount_as_nanos (b'-' ∷ l) ≡ map_signed true (parse_unsigned l)
    minus l = refl

whole_number-to_decimal : (n : ℕ) → whole_number (to_decimal n) ≡ some n
unfolding whole_number
whole_number-to_decimal n =
    let (c, cs, e) = to_decimal-cons n in
    let spanned =
      ap span_digits (sym (append-nil (to_decimal n)))
      ∙ span_digits-append (to_decimal n) [] (to_decimal-IsDigits n) tt in
    rw spanned (all_of_it c cs (to_decimal n) e ∙ ap some (parse_digits-to_decimal n))
  where
    all_of_it :
        (c : ℕ) (cs ds : List ℕ) → ds ≡ c ∷ cs → whole_parts ds [] ≡ some (parse_digits 0 ds)
    all_of_it c cs ds e = rw e refl

positive_int_or_null-some :
    (s : List ℕ) (n : ℕ)
    → whole_number s ≡ some n
    → positive_int_or_null (some s) ≡ (if ltb max_safe_integer n || leb n 0 then none else some n)
unfolding positive_int_or_null
positive_int_or_null-some s n h = rw (h, positive_int_or_null) refl

-- A number that is printed is taken for a positive one, and read back, exactly when it is one from 1
-- up to the largest safe number.
positive_int_or_null-to_decimal :
    (n : ℕ)
    → (0 < n) × (n ≤ max_safe_integer) × (positive_int_or_null (some (to_decimal n)) ≡ some n)
      ⊎ ((n ≡ 0) ⊎ (max_safe_integer < n)) × (positive_int_or_null (some (to_decimal n)) ≡ none)
positive_int_or_null-to_decimal n =
    let result = positive_int_or_null-some (to_decimal n) n (whole_number-to_decimal n) in
    elim (Bool-cases (ltb max_safe_integer n)) [
      | inl large ↦ inr (inr (ground arith), result ∙ rw large refl)
      | inr safe ↦ elim (Bool-cases (leb n 0)) [
        | inl zero_is ↦ inr (inl (ground arith), result ∙ rw (safe, zero_is) refl)
        | inr positive ↦ inl (ground arith, ground arith, result ∙ rw (safe, positive) refl)
      ]
    ]
