-- ===== src/Balances/Total.antt =====
-- `AccountBalancesSnapshot.sum` of frontend/lib/model/balances.ts as a sum of values.
pub mod Tests
use prosper.Prelude.{
  ◌≡◌, refl, sym, ap, ◌∙◌, true, Bool, Option, none, some, List, [], ◌∷◌, arith, ◌==◌, string_eq,
  Result, ok, err, ◌>>=◌, >>=-eq-ok, Result-cases, Option-cases, inl, inr,
}
use prosper.Prelude.Int.{ℤ, pos, ◌+ℤ◌, sum, zero_+ℤ, +ℤ_zero, +ℤ_assoc}
use prosper.Prelude.Maps.{beq_refl}
use prosper.Model.Currency.{Currency}
use prosper.Model.BankAccount.{BankAccount}
use prosper.Money
use prosper.Money.Currency as Money_currency
use prosper.Money.Currency.{AmountWithCurrency, with_currency}
use prosper.Market.{Exchange}
use prosper.Market.Conversion.{exchange_in_target}
use prosper.Balances.{Snapshot, balance_of, account_value, sum_values, snapshot_sum}

-- One more value before the rest.
abbrev pub with_value : ℤ → Option (List ℤ) → Option (List ℤ)
with_value k none = none
with_value k (some vs) = some (k ∷ vs)

-- The values of the accounts, if there is one of each.
pub all_values :
    (BankAccount → Result (Option AmountWithCurrency)) → List BankAccount → Result (Option (List ℤ))
all_values value_of [] = ok (some [])
all_values value_of (account ∷ accounts) = do
  value ← value_of account
  elim value [
    | none ↦ ok none
    | some v ↦ (do rest ← all_values value_of accounts; ok (with_value v.amount.amount_nanos rest))
  ]

abbrev pub in_nanos : ℤ → Currency → AmountWithCurrency
in_nanos n target = with_currency (record { amount_nanos = n }) target

-- The sum of the values on top of an amount in the currency.
abbrev total_from : ℤ → Currency → Option (List ℤ) → Option AmountWithCurrency
total_from start target none = none
total_from start target (some vs) = some (in_nanos (start +ℤ sum vs) target)

-- The sum of the values, in the currency.
abbrev pub total_of : Currency → Option (List ℤ) → Option AmountWithCurrency
total_of target none = none
total_of target (some vs) = some (in_nanos (sum vs) target)

total_from-with_value :
    (r : Result (Option (List ℤ))) (n k : ℤ) (target : Currency)
    → (r >>= λ o. ok (total_from (n +ℤ k) target o))
      ≡ ((r >>= λ rest. ok (with_value k rest)) >>= λ o. ok (total_from n target o))
total_from-with_value (err e) n k target = refl
total_from-with_value (ok none) n k target = refl
total_from-with_value (ok (some vs)) n k target =
    ap (λ m. ok (some (in_nanos m target))) (+ℤ_assoc n k (sum vs))

total_from_zero :
    (r : Result (Option (List ℤ))) (target : Currency)
    → (r >>= λ o. ok (total_from (pos 0) target o)) ≡ (r >>= λ o. ok (total_of target o))
total_from_zero (err e) target = refl
total_from_zero (ok none) target = refl
total_from_zero (ok (some vs)) target = ap (λ m. ok (some (in_nanos m target))) (zero_+ℤ (sum vs))

add-in_nanos :
    (n : ℤ) (target : Currency) (v : AmountWithCurrency)
    → (v.currency.code == target.code) ≡ true
    → Money_currency.add (in_nanos n target) v ≡ ok (in_nanos (n +ℤ v.amount.amount_nanos) target)
unfolding Money_currency.add Money.add
add-in_nanos n target v h = rw h refl

sum_values-all_values :
    (value_of : BankAccount → Result (Option AmountWithCurrency)) (accounts : List BankAccount)
    (n : ℤ) (target : Currency)
    → ((account : BankAccount) (v : AmountWithCurrency)
        → value_of account ≡ ok (some v)
        → (v.currency.code == target.code) ≡ true)
    → sum_values value_of accounts (in_nanos n target)
      ≡ (all_values value_of accounts >>= λ o. ok (total_from n target o))
unfolding sum_values all_values
sum_values-all_values value_of [] n target agree =
    ap (λ k. ok (some (in_nanos k target))) (sym (+ℤ_zero n))
sum_values-all_values value_of (account ∷ accounts) n target agree =
    elim (Result-cases (value_of account)) [
      | inl (e, fails) ↦ rw fails refl
      | inr (o, found) ↦ elim (Option-cases o) [
        | inl missing ↦ rw (found, missing) refl
        | inr (v, there) ↦
            let later =
              sum_values-all_values value_of accounts (n +ℤ v.amount.amount_nanos) target agree in
            let at : value_of account ≡ ok (some v) = found ∙ ap (λ o. ok o) there in
            rw (found, there, add-in_nanos n target v (agree account v at))
              (later
                ∙ total_from-with_value (all_values value_of accounts) n v.amount.amount_nanos
                    target)
      ]
    ]

module _ (closest_to : ℤ → List ℤ → Option ℤ) where
  account_value_in_target :
      (s : Snapshot) (target : Currency) (x : Exchange) (account : BankAccount)
      (v : AmountWithCurrency)
      → account_value closest_to target x s account ≡ ok (some v)
      → (v.currency.code == target.code) ≡ true
  unfolding account_value
  account_value_in_target s target x account v h =
      let (balance, found, converted) = >>=-eq-ok (balance_of s account) _ h in
      exchange_in_target closest_to x balance target s.as_of v converted

  -- The sum of a snapshot is the sum of the values of the accounts in the target currency, and is
  -- undefined when that of an account is: the amounts that it adds never differ in their currency.
  pub snapshot_sum_total :
      (s : Snapshot) (accounts : List BankAccount) (target : Currency) (x : Exchange)
      → snapshot_sum closest_to s accounts target x ≡ (
          all_values (account_value closest_to target x s) accounts >>= λ o. ok (total_of target o))
  unfolding snapshot_sum Money_currency.zero Money.zero_amount
  snapshot_sum_total s accounts target x =
      sum_values-all_values (account_value closest_to target x s) accounts (pos 0) target
        (account_value_in_target s target x)
      ∙ total_from_zero (all_values (account_value closest_to target x s) accounts) target
