-- ===== src/Stats/Series/InCurrency.antt =====
-- The incomes and expenses of an input have their own shares in its currency, which the constructor
-- of frontend/lib/ExchangedTransactions.tsx asserts.
use prosper.Prelude.{
  ◌≡◌, Bool, List, [], ◌∷◌, All, keep, ◌==◌, string_eq, Error, Result, ok, err, Bool-cases, inl,
  inr,
}
use prosper.Model.Currency.{Currency}
use prosper.Transaction.{
  personal_expense, third_party_expense, transfer, income, opening_balance, Transaction,
}
use prosper.Stats.{with_t, Exchanged, check_currencies, expenses_in, income_in}

pub All-keep :
    {A : Type 0} (P : A → Type 0) (p : A → Bool) (xs : List A) → All P xs → All P (keep p xs)
unfolding keep
All-keep P p [] h = tt
All-keep P p (x ∷ xs) h = elim (Bool-cases (p x)) [
  | inl e ↦ rw e (h.0, All-keep P p xs h.1)
  | inr e ↦ rw e (All-keep P p xs h.1)
]

-- The own share is in the currency.
abbrev pub IsOwnIn : {T : Type 0} → Currency → Exchanged T → Type 0
IsOwnIn c x = x.own_share.currency.code ≡ c.code

abbrev the_error : Error → Result (Unit {0})
the_error = err

absurd_err : {P : Type 0} {e : Error} → (the_error e) ≡ ok tt → P
absurd_err h = cc

pub check_currencies-All :
    (c : Currency) (xs : List (Exchanged Transaction))
    → check_currencies c xs ≡ ok tt
    → All (IsOwnIn c) xs
unfolding check_currencies
check_currencies-All c [] h = tt
check_currencies-All c (x ∷ xs) h = elim (Bool-cases (x.own_share.currency.code == c.code)) [
  | inl own ↦ elim (Bool-cases (x.all_parties.currency.code == c.code)) [
    | inl all ↦ (
      (string_eq.test_iff x.own_share.currency.code c.code).0 own,
      check_currencies-All c xs (rw (own, all) at h),
    )
    | inr e ↦ absurd_err (rw (own, e) at h)
  ]
  | inr e ↦ absurd_err (rw e at h)
]

pub income_in-All :
    (c : Currency) (xs : List (Exchanged Transaction))
    → All (IsOwnIn c) xs
    → All (IsOwnIn c) (income_in xs)
unfolding income_in
income_in-All c [] h = tt
income_in-All c (x ∷ xs) h = elim x.t as (λ t. All (IsOwnIn c) (income_in (with_t x t ∷ xs))) [
  | income t ↦ (h.0, income_in-All c xs h.1)
  | personal_expense _ ↦ income_in-All c xs h.1
  | third_party_expense _ ↦ income_in-All c xs h.1
  | transfer _ ↦ income_in-All c xs h.1
  | opening_balance _ ↦ income_in-All c xs h.1
]

pub expenses_in-All :
    (c : Currency) (xs : List (Exchanged Transaction))
    → All (IsOwnIn c) xs
    → All (IsOwnIn c) (expenses_in xs)
unfolding expenses_in
expenses_in-All c [] h = tt
expenses_in-All c (x ∷ xs) h = elim x.t as (λ t. All (IsOwnIn c) (expenses_in (with_t x t ∷ xs))) [
  | personal_expense t ↦ (h.0, expenses_in-All c xs h.1)
  | third_party_expense t ↦ (h.0, expenses_in-All c xs h.1)
  | income _ ↦ expenses_in-All c xs h.1
  | transfer _ ↦ expenses_in-All c xs h.1
  | opening_balance _ ↦ expenses_in-All c xs h.1
]
