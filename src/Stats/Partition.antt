-- ===== src/Stats/Partition.antt =====
-- How `useExchangedTransactions` of frontend/app/(authenticated)/stats/modelHelpers.tsx splits its
-- transactions.
use prosper.Prelude.{
  ◌≡◌, ◌⊎◌, refl, inl, inr, ap, sym, ◌∙◌, subst, Option, none, some, List, [], ◌∷◌, ◌++◌, Result,
  ok, err, Error, ◌>>=◌, Result-cases, string_eq, >>=-eq-ok,
}
use mathlib.Core.List.{append-nil, append_assoc}
use prosper.Prelude.Int.{ℤ}
use prosper.Model.BankAccount.{BankAccount}
use prosper.Model.Currency.{Currency}
use prosper.Model.Stock.{Stock}
use prosper.Money.Currency.{AmountWithCurrency, zero}
use prosper.Market.{Exchange}
use prosper.Transaction.{
  Transaction, ExpenseOrIncome, personal, third_party, of_expense, of_income, personal_expense,
  third_party_expense, transfer, income, opening_balance,
}
use prosper.Transaction.Accessors.{transaction_unit}
use prosper.Transaction.Amounts.{amount_own_share, amount_all_parties, time_of}
use prosper.Stats.{
  Exchanged, Split, nothing_split, exchanged_as, push, fail, check_currencies,
  new_exchanged_transactions, own_of, all_of, split_amounts, split_own, split_one, split_all,
  use_exchanged_transactions,
}
use prosper.Stats.Display.{IsIn, zero-IsIn, convert_by_unit-IsIn}

module _ (closest_to : ℤ → List ℤ → Option ℤ) (bank_accounts : List BankAccount)
    (stocks : List Stock) (x : Exchange) (c : Currency) where
  abbrev own : ExpenseOrIncome → Result (Option AmountWithCurrency)
  own e = own_of closest_to bank_accounts stocks x c e

  abbrev all : ExpenseOrIncome → Result (Option AmountWithCurrency)
  all e = all_of closest_to bank_accounts stocks x c e

  own-IsIn : (e : ExpenseOrIncome) (o : Option AmountWithCurrency) → own e ≡ ok o → IsIn c o
  unfolding amount_own_share
  own-IsIn e o h =
      let (unit, p, q) = >>=-eq-ok (transaction_unit e bank_accounts stocks) _ h in
      convert_by_unit-IsIn closest_to x c unit _ (time_of e) o q

  all-IsIn : (e : ExpenseOrIncome) (o : Option AmountWithCurrency) → all e ≡ ok o → IsIn c o
  unfolding amount_all_parties
  all-IsIn e o h =
      let (unit, p, q) = >>=-eq-ok (transaction_unit e bank_accounts stocks) _ h in
      convert_by_unit-IsIn closest_to x c unit _ (time_of e) o q

  abbrev as_shared : Transaction → Option ExpenseOrIncome
  as_shared (personal_expense t) = some (of_expense (personal t))
  as_shared (third_party_expense t) = some (of_expense (third_party t))
  as_shared (income t) = some (of_income t)
  as_shared (transfer t) = none
  as_shared (opening_balance t) = none

  -- The amounts are the two that the transaction has in the display currency, or zero.
  abbrev HasAmounts : Option ExpenseOrIncome → Exchanged Transaction → Type 0
  HasAmounts none y = (y.own_share ≡ zero c) × (y.all_parties ≡ zero c)
  HasAmounts (some e) y = (own e ≡ ok (some y.own_share)) × (all e ≡ ok (some y.all_parties))

  -- One of the two amounts is missing.
  abbrev LacksAmount : Option ExpenseOrIncome → Type 0
  LacksAmount none = ⊥
  LacksAmount (some e) = (own e ≡ ok none) ⊎ (all e ≡ ok none)

  -- Each transaction is exchanged or has failed, and both lists are in the order of the first.
  pub data IsSplit
      : List Transaction → List (Exchanged Transaction) → List Transaction → Type 0 where
    done : IsSplit [] [] []
    converted :
        (y : Exchanged Transaction) (ts : List Transaction) (ys : List (Exchanged Transaction))
        (failed : List Transaction)
        → HasAmounts (as_shared y.t) y
        → IsSplit ts ys failed
        → IsSplit (y.t ∷ ts) (y ∷ ys) failed
    missed :
        (t : Transaction) (ts : List Transaction) (ys : List (Exchanged Transaction))
        (failed : List Transaction)
        → LacksAmount (as_shared t)
        → IsSplit ts ys failed
        → IsSplit (t ∷ ts) ys (t ∷ failed)

  -- The amounts of one of the transactions cannot be computed.
  abbrev ThrowsAt : Option ExpenseOrIncome → Error → Type 0
  ThrowsAt none e = ⊥
  ThrowsAt (some sh) e = (own sh ≡ err e) ⊎ (all sh ≡ err e)

  abbrev pub Throws : List Transaction → Error → Type 0
  Throws [] e = ⊥
  Throws (t ∷ ts) e = ThrowsAt (as_shared t) e ⊎ Throws ts e

  -- What one round does.
  abbrev Round : Transaction → Split → Result Split → Type 0
  Round t s r =
      ((e : Error) × (r ≡ err e) × ThrowsAt (as_shared t) e)
      ⊎ ((y : Exchanged Transaction) × (r ≡ ok (push y s))
          × (y.t ≡ t)
          × HasAmounts (as_shared y.t) y)
      ⊎ (r ≡ ok (fail t s)) × LacksAmount (as_shared t)

  all-Round :
      (t : Transaction) (sh : ExpenseOrIncome) (s : Split) (o : AmountWithCurrency)
      → as_shared t ≡ some sh
      → own sh ≡ ok (some o)
      → Round t s (split_own closest_to bank_accounts stocks x c t sh s (some o))
  unfolding split_own split_amounts
  all-Round t sh s o h k = elim (Result-cases (all sh)) [
    | inl (e, q) ↦ inl (e, rw q refl, subst (λ w. ThrowsAt w e) (sym h) (inr q))
    | inr (none, q) ↦ inr (inr (rw q refl, subst LacksAmount (sym h) (inr q)))
    | inr (some a, q) ↦ inr (
        inl (
          exchanged_as t o a,
          rw q refl,
          refl,
          subst (λ w. HasAmounts w (exchanged_as t o a)) (sym h) (k, q),
        ))
  ]

  own-Round :
      (t : Transaction) (sh : ExpenseOrIncome) (s : Split)
      → as_shared t ≡ some sh
      → Round t s (own sh >>= λ o. split_own closest_to bank_accounts stocks x c t sh s o)
  unfolding split_own
  own-Round t sh s h = elim (Result-cases (own sh)) [
    | inl (e, p) ↦ inl (e, rw p refl, subst (λ w. ThrowsAt w e) (sym h) (inl p))
    | inr (none, p) ↦ inr (inr (rw p refl, subst LacksAmount (sym h) (inl p)))
    | inr (some o, p) ↦ rw p (all-Round t sh s o h p)
  ]

  split_one-Round :
      (t : Transaction) (s : Split) → Round t s (split_one closest_to bank_accounts stocks x c t s)
  unfolding split_one
  split_one-Round (personal_expense t) s = own-Round _ _ s refl
  split_one-Round (third_party_expense t) s = own-Round _ _ s refl
  split_one-Round (income t) s = own-Round _ _ s refl
  split_one-Round (transfer t) s =
      inr (inl (exchanged_as (transfer t) (zero c) (zero c), refl, refl, (refl, refl)))
  split_one-Round (opening_balance t) s =
      inr (inl (exchanged_as (opening_balance t) (zero c) (zero c), refl, refl, (refl, refl)))

  -- What the loop does, from what it has already.
  abbrev Loop : List Transaction → Split → Result Split → Type 0
  Loop ts s r =
      ((e : Error) × (r ≡ err e) × Throws ts e)
      ⊎ ((ys : List (Exchanged Transaction)) × (failed : List Transaction) × (r
            ≡ ok (record { failed = s.failed ++ failed; exchanged = s.exchanged ++ ys }))
          × IsSplit ts ys failed)

  after_push :
      (t : Transaction) (ts : List Transaction) (s : Split) (y : Exchanged Transaction)
      → y.t ≡ t
      → HasAmounts (as_shared y.t) y
      → (r : Result Split) → Loop ts (push y s) r
      → Loop (t ∷ ts) s r
  after_push t ts s y same h r (inl (e, p, throws)) = inl (e, p, inr throws)
  after_push t ts s y same h r (inr (ys, failed, p, split)) = inr (
    y ∷ ys,
    failed,
    p
        ∙ ap (λ zs. ok (record { failed = s.failed ++ failed; exchanged = zs }))
            (append_assoc s.exchanged (y ∷ []) ys),
    subst (λ t. IsSplit (t ∷ ts) (y ∷ ys) failed) same (converted y ts ys failed h split),
  )

  after_fail :
      (t : Transaction) (ts : List Transaction) (s : Split)
      → LacksAmount (as_shared t)
      → (r : Result Split) → Loop ts (fail t s) r
      → Loop (t ∷ ts) s r
  after_fail t ts s h r (inl (e, p, throws)) = inl (e, p, inr throws)
  after_fail t ts s h r (inr (ys, failed, p, split)) = inr (
    ys,
    t ∷ failed,
    p
        ∙ ap (λ zs. ok (record { failed = zs; exchanged = s.exchanged ++ ys }))
            (append_assoc s.failed (t ∷ []) failed),
    missed t ts ys failed h split,
  )

  split_all-Loop :
      (ts : List Transaction) (s : Split)
      → Loop ts s (split_all closest_to bank_accounts stocks x c ts s)
  unfolding split_all
  split_all-Loop [] s = inr ([], [], rw (append-nil s.failed, append-nil s.exchanged) refl, done)
  split_all-Loop (t ∷ ts) s = elim (split_one-Round t s) [
    | inl (e, p, h) ↦ inl (e, rw p refl, inl h)
    | inr (inl (y, p, same, h)) ↦ rw p (
        after_push t ts s y same h (split_all closest_to bank_accounts stocks x c ts (push y s))
          (split_all-Loop ts (push y s)))
    | inr (inr (p, h)) ↦ rw p (
        after_fail t ts s h (split_all closest_to bank_accounts stocks x c ts (fail t s))
          (split_all-Loop ts (fail t s)))
  ]

  amounts-IsIn :
      (o : Option ExpenseOrIncome) (y : Exchanged Transaction)
      → HasAmounts o y
      → IsIn c (some y.own_share) × IsIn c (some y.all_parties)
  amounts-IsIn none y (p, q) = (
    subst (λ a. IsIn c (some a)) (sym p) (zero-IsIn c),
    subst (λ a. IsIn c (some a)) (sym q) (zero-IsIn c),
  )
  amounts-IsIn (some e) y (p, q) =
      (own-IsIn e (some y.own_share) p, all-IsIn e (some y.all_parties) q)

  -- The assertions of the constructor hold.
  check_currencies-IsSplit :
      (ts : List Transaction) (ys : List (Exchanged Transaction)) (failed : List Transaction)
      → IsSplit ts ys failed
      → check_currencies c ys ≡ ok tt
  unfolding check_currencies
  check_currencies-IsSplit _ _ _ done = refl
  check_currencies-IsSplit _ _ _ (converted y ts ys failed h rest) =
      let (p, q) = amounts-IsIn (as_shared y.t) y h in
      rw (p, q) (check_currencies-IsSplit ts ys failed rest)
  check_currencies-IsSplit _ _ _ (missed t ts ys failed h rest) =
      check_currencies-IsSplit ts ys failed rest

  -- The call throws only where an amount of one of the transactions cannot be computed: its own
  -- assertions hold. Else each transaction is exchanged, with both amounts in the display currency,
  -- or has failed for the lack of one, and both lists keep the order.
  pub use_exchanged_transactions-IsSplit :
      (ts : List Transaction)
      → ((e : Error) × (use_exchanged_transactions closest_to bank_accounts stocks x c ts ≡ err e)
          × Throws ts e)
        ⊎ ((ys : List (Exchanged Transaction)) × (failed : List Transaction)
            × (use_exchanged_transactions closest_to bank_accounts stocks x c ts
                ≡ ok (record { exchanged = ys; currency = c }, failed))
            × IsSplit ts ys failed)
  unfolding use_exchanged_transactions new_exchanged_transactions
  use_exchanged_transactions-IsSplit ts = elim (split_all-Loop ts nothing_split) [
    | inl (e, p, h) ↦ inl (e, rw p refl, h)
    | inr (ys, failed, p, h) ↦
        inr (ys, failed, rw (p, check_currencies-IsSplit ts ys failed h) refl, h)
  ]
