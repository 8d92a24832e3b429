-- ===== src/Balances/Sweep.antt =====
-- `BalanceSweep` of frontend/lib/model/balances.ts against the balances that the transactions
-- define: every snapshot of a sweep is `balance_at` its instant.
use prosper.Prelude.{
  ℕ, suc, ◌+◌, ◌≡◌, refl, Bool, true, false, Bool-cases, inl, inr, List, [], ◌∷◌, ◌++◌,
  if◌then◌else◌, arith, All, All-append, length, ok,
}
use prosper.Prelude.Int.{ℤ, pos, ◌+ℤ◌, leb_ℤ, int_laws}
use prosper.Prelude.Sort.{sort, insert_sorted, IsSorted}
use prosper.Transaction.{
  Transaction, personal_expense, third_party_expense, transfer, income, opening_balance, epoch_of,
}
use prosper.Balances.{NanosMap, get_or_zero, increment, apply_effects, replay, seed, by_time}
use prosper.Balances.Effects.{
  delta_until, opening, total_delta, total_until, total_opening, get_or_zero-increment, IsActivity,
  activity-HasDelta,
}

abbrev pub IsPast : ℤ → Transaction → Type 0
IsPast as_of t = leb_ℤ (epoch_of t) as_of ≡ true

abbrev pub IsFuture : ℤ → Transaction → Type 0
IsFuture as_of t = leb_ℤ (epoch_of t) as_of ≡ false

-- What `replay` has done: it took the transactions up to `as_of`, and left those after it.
pub record Replayed (as_of : ℤ) (ts : List Transaction) (m : NanosMap) (c : ℕ) : Type 0 where
  pub done : List Transaction
  pub rest : List Transaction
  pub nanos : NanosMap
  pub split : ts ≡ done ++ rest
  pub past : All (IsPast as_of) done
  pub future : All (IsFuture as_of) rest
  pub returns : replay as_of ts m c ≡ ok (nanos, c + length done)
  pub balances : (a : ℕ) → get_or_zero a nanos ≡ get_or_zero a m +ℤ total_delta done a

All-IsFuture :
    (as_of : ℤ) (t : Transaction) (ts : List Transaction)
    → IsFuture as_of t
    → All (λ u. by_time t u ≡ true) ts
    → All (IsFuture as_of) ts
All-IsFuture as_of t [] h k = tt
All-IsFuture as_of t (u ∷ ts) h k = (ground arith, All-IsFuture as_of t ts h k.1)

pub replay-Replayed :
    (as_of : ℤ) (ts : List Transaction) (m : NanosMap) (c : ℕ)
    → All IsActivity ts
    → IsSorted by_time ts
    → Replayed as_of ts m c
unfolding replay
replay-Replayed as_of [] m c act ord = record {
  done = [];
  rest = [];
  nanos = m;
  split = refl;
  past = tt;
  future = tt;
  returns = rw (let e : c + 0 ≡ c = omega arith in e);
  balances = λ a. omega int_laws;
}
replay-Replayed as_of (t ∷ ts) m c act ord = elim (Bool-cases (leb_ℤ (epoch_of t) as_of)) [
  | inr later ↦ record {
    done = [];
    rest = t ∷ ts;
    nanos = m;
    split = refl;
    past = tt;
    future = (later, All-IsFuture as_of t ts later ord.0);
    returns = rw (later, (let e : c + 0 ≡ c = omega arith in e));
    balances = λ a. omega int_laws;
  }
  | inl now ↦
      let d = activity-HasDelta t act.0 in
      let r = replay-Replayed as_of ts (apply_effects d.effects m) (c + 1) act.1 ord.1 in
      record {
        done = t ∷ r.done;
        rest = r.rest;
        nanos = r.nanos;
        split = rw (← r.split);
        past = (now, r.past);
        future = r.future;
        returns = rw (
          now,
          d.returns,
          r.returns,
          (let e : c + 1 + length r.done ≡ c + suc (length r.done) = omega arith in e),
        );
        balances = λ a. rw (r.balances a, d.changes a m) (omega int_laws);
      }
]

until_past :
    (as_of : ℤ) (ts : List Transaction) (a : ℕ)
    → All (IsPast as_of) ts
    → total_until as_of ts a ≡ total_delta ts a
until_past as_of [] a h = refl
until_past as_of (t ∷ ts) a h = rw (h.0, until_past as_of ts a h.1)

until_future :
    (as_of : ℤ) (ts : List Transaction) (a : ℕ)
    → All (IsFuture as_of) ts
    → total_until as_of ts a ≡ pos 0
until_future as_of [] a h = refl
until_future as_of (t ∷ ts) a h = rw (h.0, until_future as_of ts a h.1) (omega int_laws)

total_until-append :
    (as_of : ℤ) (xs ys : List Transaction) (a : ℕ)
    → total_until as_of (xs ++ ys) a ≡ total_until as_of xs a +ℤ total_until as_of ys a
total_until-append as_of [] ys a = omega int_laws
total_until-append as_of (x ∷ xs) ys a = rw (total_until-append as_of xs ys a) (omega int_laws)

-- The changes up to `as_of` are those of the transactions that come before the cut.
pub total_until_split :
    (as_of : ℤ) (done rest : List Transaction) (a : ℕ)
    → All (IsPast as_of) done
    → All (IsFuture as_of) rest
    → total_until as_of (done ++ rest) a ≡ total_delta done a
total_until_split as_of done rest a p f =
    rw
      (total_until-append as_of done rest a, until_past as_of done a p, until_future as_of rest a f)
      (omega int_laws)

total_until-insert_sorted :
    (as_of : ℤ) (t : Transaction) (ts : List Transaction) (a : ℕ)
    → total_until as_of (insert_sorted by_time t ts) a
      ≡ delta_until as_of t a +ℤ total_until as_of ts a
unfolding insert_sorted
total_until-insert_sorted as_of t [] a = refl
total_until-insert_sorted as_of t (u ∷ ts) a = elim (Bool-cases (by_time t u)) [
  | inl e ↦ rw e
  | inr e ↦ rw (e, total_until-insert_sorted as_of t ts a) (omega int_laws)
]

pub total_until-sort :
    (as_of : ℤ) (ts : List Transaction) (a : ℕ)
    → total_until as_of (sort by_time ts) a ≡ total_until as_of ts a
unfolding sort
total_until-sort as_of [] a = refl
total_until-sort as_of (t ∷ ts) a =
    rw (total_until-insert_sorted as_of t (sort by_time ts) a, total_until-sort as_of ts a)

if_zero : (b : Bool) → (if b then pos 0 else pos 0) ≡ pos 0
if_zero true = refl
if_zero false = refl

-- What the constructor's loop has put into the balances and the list.
pub record Seeded (ts : List Transaction) (m : NanosMap) (acc : List Transaction) : Type 0 where
  pub activity : All IsActivity (seed ts m acc).1
  pub openings : (a : ℕ) → get_or_zero a (seed ts m acc).0 ≡ get_or_zero a m +ℤ total_opening ts a
  pub changes :
      (as_of : ℤ) (a : ℕ)
      → total_until as_of (seed ts m acc).1 a ≡ total_until as_of acc a +ℤ total_until as_of ts a

seed_push :
    (t : Transaction) (ts : List Transaction) (m : NanosMap) (acc : List Transaction)
    → ((a : ℕ) → opening t a ≡ pos 0)
    → Seeded ts m (acc ++ t ∷ [])
    → seed (t ∷ ts) m acc ≡ seed ts m (acc ++ t ∷ [])
    → Seeded (t ∷ ts) m acc
seed_push t ts m acc idle r e = record {
  activity = rw e r.activity;
  openings = λ a. rw (e, r.openings a, idle a) (omega int_laws);
  changes = λ as_of a.
      rw (e, r.changes as_of a, total_until-append as_of acc (t ∷ []) a) (omega int_laws);
}

pub seed-Seeded :
    (ts : List Transaction) (m : NanosMap) (acc : List Transaction)
    → All IsActivity acc
    → Seeded ts m acc
unfolding seed
seed-Seeded [] m acc h = record {
  activity = h;
  openings = λ a. omega int_laws;
  changes = λ as_of a. omega int_laws;
}
seed-Seeded (opening_balance t ∷ ts) m acc h =
    let r = seed-Seeded ts (increment t.account_id t.amount_nanos m) acc h in
    record {
      activity = r.activity;
      openings = λ a.
          rw (r.openings a, get_or_zero-increment t.account_id a t.amount_nanos m) (omega int_laws);
      changes = λ as_of a.
          rw (r.changes as_of a, if_zero (leb_ℤ t.timestamp_epoch as_of)) (omega int_laws);
    }
seed-Seeded (income t ∷ ts) m acc h =
    seed_push (income t) ts m acc (λ a. refl)
      (seed-Seeded ts m (acc ++ income t ∷ []) (All-append _ acc _ h (tt, tt))) refl
seed-Seeded (personal_expense t ∷ ts) m acc h =
    seed_push (personal_expense t) ts m acc (λ a. refl)
      (seed-Seeded ts m (acc ++ personal_expense t ∷ []) (All-append _ acc _ h (tt, tt))) refl
seed-Seeded (third_party_expense t ∷ ts) m acc h =
    seed_push (third_party_expense t) ts m acc (λ a. refl)
      (seed-Seeded ts m (acc ++ third_party_expense t ∷ []) (All-append _ acc _ h (tt, tt))) refl
seed-Seeded (transfer t ∷ ts) m acc h =
    seed_push (transfer t) ts m acc (λ a. refl)
      (seed-Seeded ts m (acc ++ transfer t ∷ []) (All-append _ acc _ h (tt, tt))) refl
