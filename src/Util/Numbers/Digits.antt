-- ===== src/Util/Numbers/Digits.antt =====
-- The digits of a number that is printed.
use prosper.Prelude.{
  ℕ, zero, suc, ◌+◌, ◌/◌, ◌%◌, ◌≡◌, refl, true, false, Bool-cases, List, [], ◌∷◌, ◌++◌, arith, ltb,
  All, inl, inr,
}
use prosper.Prelude.Text.{digits_from, to_decimal, span_digits, is_digit}

abbrev pub IsDigits : List ℕ → Type 0
IsDigits ds = All (λ c. is_digit c ≡ true) ds

-- A text that no digit begins.
abbrev pub AfterDigits : List ℕ → Type 0
AfterDigits [] = Unit
AfterDigits (c ∷ _) = is_digit c ≡ false

digit_of : (n : ℕ) → is_digit (b'0' + n % 10) ≡ true
unfolding is_digit
digit_of n = ground arith

digits_from-IsDigits :
    (fuel n : ℕ) (rest : List ℕ) → IsDigits rest → IsDigits (digits_from fuel n rest)
unfolding digits_from
digits_from-IsDigits zero n rest h = h
digits_from-IsDigits (suc fuel) n rest h = elim (Bool-cases (ltb n 10)) [
  | inl small ↦ rw small (digit_of n, h)
  | inr large ↦
      rw large (digits_from-IsDigits fuel (n / 10) ((b'0' + n % 10) ∷ rest) (digit_of n, h))
]

pub to_decimal-IsDigits : (n : ℕ) → IsDigits (to_decimal n)
unfolding to_decimal
to_decimal-IsDigits n = digits_from-IsDigits (suc n) n [] tt

digits_from-cons :
    (fuel n d : ℕ) (rest : List ℕ)
    → (c : ℕ) × (cs : List ℕ) × (digits_from fuel n (d ∷ rest) ≡ c ∷ cs)
unfolding digits_from
digits_from-cons zero n d rest = (d, rest, refl)
digits_from-cons (suc fuel) n d rest = elim (Bool-cases (ltb n 10)) [
  | inl small ↦ (b'0' + n % 10, d ∷ rest, rw small refl)
  | inr large ↦
      let (c, cs, e) = digits_from-cons fuel (n / 10) (b'0' + n % 10) (d ∷ rest) in
      (c, cs, rw large e)
]

pub to_decimal-cons : (n : ℕ) → (c : ℕ) × (cs : List ℕ) × (to_decimal n ≡ c ∷ cs)
unfolding to_decimal digits_from
to_decimal-cons n = elim (Bool-cases (ltb n 10)) [
  | inl small ↦ (b'0' + n % 10, [], rw small refl)
  | inr large ↦
      let (c, cs, e) = digits_from-cons n (n / 10) (b'0' + n % 10) [] in (c, cs, rw large e)
]

-- The digits at the front of a text that goes on with something else.
pub span_digits-append :
    (ds rest : List ℕ) → IsDigits ds → AfterDigits rest → span_digits (ds ++ rest) ≡ (ds, rest)
unfolding span_digits
span_digits-append [] [] h a = refl
span_digits-append [] (c ∷ rest) h a = rw a refl
span_digits-append (d ∷ ds) rest h a = rw (h.0, span_digits-append ds rest h.1 a) refl
