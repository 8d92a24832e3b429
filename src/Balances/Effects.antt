-- ===== src/Balances/Effects.antt =====
-- What a transaction does to each account, beside `balanceEffects` and the append map of
-- frontend/lib/model/balances.ts.
use prosper.Prelude.{
  ℕ, ◌≡◌, refl, Bool-cases, inl, inr, List, [], ◌∷◌, ◌++◌, if◌then◌else◌, nat_eq, nat_beq,
  nat_beq_iff, ok,
}
use prosper.Prelude.Int.{ℤ, pos, ◌+ℤ◌, neg_ℤ, leb_ℤ, int_laws}
use prosper.Prelude.Maps.{lookup-insert}
use prosper.Transaction.{
  Transaction, personal_expense, third_party_expense, transfer, income, opening_balance, epoch_of,
}
use prosper.Balances.{NanosMap, Effect, get_or_zero, increment, apply_effects, balance_effects}

-- `n` at the account `b`, and nothing elsewhere.
abbrev pub at_account : ℕ → ℤ → ℕ → ℤ
at_account b n a = if nat_beq b a then n else pos 0

-- The change that a transaction other than an opening balance makes to the account `a`.
abbrev pub delta : Transaction → ℕ → ℤ
delta (income t) a = at_account t.account_id t.amount_nanos a
delta (personal_expense t) a = at_account t.account_id (neg_ℤ t.amount_nanos) a
delta (third_party_expense t) a = pos 0
delta (transfer t) a =
    at_account t.from_account_id (neg_ℤ t.sent_amount_nanos) a
    +ℤ at_account t.to_account_id t.received_amount_nanos a
delta (opening_balance t) a = pos 0

-- What an opening balance puts on the account `a`.
abbrev pub opening : Transaction → ℕ → ℤ
opening (opening_balance t) a = at_account t.account_id t.amount_nanos a
opening _ a = pos 0

abbrev pub total_delta : List Transaction → ℕ → ℤ
total_delta [] a = pos 0
total_delta (t ∷ ts) a = delta t a +ℤ total_delta ts a

abbrev pub total_opening : List Transaction → ℕ → ℤ
total_opening [] a = pos 0
total_opening (t ∷ ts) a = opening t a +ℤ total_opening ts a

-- The changes up to and at `as_of`.
abbrev pub delta_until : ℤ → Transaction → ℕ → ℤ
delta_until as_of t a = if leb_ℤ (epoch_of t) as_of then delta t a else pos 0

abbrev pub total_until : ℤ → List Transaction → ℕ → ℤ
total_until as_of [] a = pos 0
total_until as_of (t ∷ ts) a = delta_until as_of t a +ℤ total_until as_of ts a

-- The balance of an account at an instant: all opening balances, whenever they were recorded, and
-- the changes up to that instant.
abbrev pub balance_at : List Transaction → ℤ → ℕ → ℤ
balance_at ts as_of a = total_opening ts a +ℤ total_until as_of ts a

pub total_delta-append :
    (xs ys : List Transaction) (a : ℕ)
    → total_delta (xs ++ ys) a ≡ total_delta xs a +ℤ total_delta ys a
total_delta-append [] ys a = omega int_laws
total_delta-append (x ∷ xs) ys a = rw (total_delta-append xs ys a) (omega int_laws)

pub get_or_zero-increment :
    (k j : ℕ) (v : ℤ) (m : NanosMap)
    → get_or_zero j (increment k v m) ≡ get_or_zero j m +ℤ at_account k v j
unfolding get_or_zero increment
get_or_zero-increment k j v m = elim (Bool-cases (nat_beq k j)) [
  | inl e ↦ rw (lookup-insert, e, (nat_beq_iff k j).0 e)
  | inr e ↦ rw (lookup-insert, e) (omega int_laws)
]

abbrev effect_on : List Effect → ℕ → ℤ
effect_on [] a = pos 0
effect_on ((b, n) ∷ es) a = at_account b n a +ℤ effect_on es a

get_or_zero-apply_effects :
    (es : List Effect) (a : ℕ) (m : NanosMap)
    → get_or_zero a (apply_effects es m) ≡ get_or_zero a m +ℤ effect_on es a
unfolding apply_effects
get_or_zero-apply_effects [] a m = omega int_laws
get_or_zero-apply_effects ((b, n) ∷ es) a m =
    rw (get_or_zero-apply_effects es a (increment b n m), get_or_zero-increment b a n m)
      (omega int_laws)

-- A transaction that the sweep replays.
abbrev pub IsActivity : Transaction → Type 0
IsActivity (opening_balance t) = ⊥
IsActivity _ = Unit

-- What `balanceEffects` returns has the effect that `delta` states, on every account.
pub record HasDelta (t : Transaction) : Type 0 where
  pub effects : List Effect
  pub returns : balance_effects t ≡ ok effects
  pub changes :
      (a : ℕ) (m : NanosMap)
      → get_or_zero a (apply_effects effects m) ≡ get_or_zero a m +ℤ delta t a

one_effect :
    (b a : ℕ) (n : ℤ) (m : NanosMap)
    → get_or_zero a (apply_effects ((b, n) ∷ []) m) ≡ get_or_zero a m +ℤ at_account b n a
one_effect b a n m = rw (get_or_zero-apply_effects ((b, n) ∷ []) a m) (omega int_laws)

pub activity-HasDelta : (t : Transaction) → IsActivity t → HasDelta t
unfolding balance_effects
activity-HasDelta (income t) h = record {
  effects = (t.account_id, t.amount_nanos) ∷ [];
  returns = refl;
  changes = λ a m. one_effect _ a _ m;
}
activity-HasDelta (personal_expense t) h = record {
  effects = (t.account_id, neg_ℤ t.amount_nanos) ∷ [];
  returns = refl;
  changes = λ a m. one_effect _ a _ m;
}
activity-HasDelta (third_party_expense t) h = record {
  effects = [];
  returns = refl;
  changes = λ a m. rw (get_or_zero-apply_effects [] a m) (omega int_laws);
}
activity-HasDelta (transfer t) h = record {
  effects =
      (t.from_account_id, neg_ℤ t.sent_amount_nanos)
      ∷ (t.to_account_id, t.received_amount_nanos)
      ∷ [];
  returns = refl;
  changes = λ a m.
      rw
        (get_or_zero-apply_effects
          ((t.from_account_id, neg_ℤ t.sent_amount_nanos)
            ∷ (t.to_account_id, t.received_amount_nanos)
            ∷ [])
          a m)
        (omega int_laws);
}
activity-HasDelta (opening_balance t) h = elim h [ ]
