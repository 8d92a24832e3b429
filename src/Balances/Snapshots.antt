-- ===== src/Balances/Snapshots.antt =====
-- The snapshots of a sweep of frontend/lib/model/balances.ts.
use mathlib.Core.List.{append_assoc}
use native.Mathlib.Decide.{dec_le}
use prosper.Prelude.{
  ℕ, ◌+◌, ◌≡◌, refl, sym, ap, ◌∙◌, true, false, List, [], ◌∷◌, ◌++◌, arith, All, All-append, length,
  drop, length-append, Result, ok, err, ◌>>=◌, Option, none, some, decreasing_as_of, ◌⊎◌, inl, inr,
}
use prosper.Prelude.Int.{ℤ, ◌+ℤ◌, ◌≤ℤ◌, int_laws, leb_ℤ_total, leb_ℤ_trans}
use prosper.Prelude.Sort.{sort, IsSorted, sort-IsSorted, sort-All}
use prosper.Model.Stock.{Stock}
use prosper.Transaction.{Transaction, epoch_of}
use prosper.Balances.{
  get_or_zero, seed, by_time, BalanceSweep, Snapshot, new_balance_sweep, advance_to, not_before,
}
use prosper.Balances.Effects.{
  total_delta, total_until, total_opening, balance_at, total_delta-append, IsActivity,
}
use prosper.Balances.Sweep.{
  IsPast, Replayed, replay-Replayed, seed-Seeded, total_until_split, total_until-sort,
}

-- `last` is at or before `as_of`; nothing is before the first call.
abbrev pub IsFrom : Option ℤ → ℤ → Type 0
IsFrom none as_of = Unit
IsFrom (some last) as_of = last ≤ℤ as_of

abbrev ReplayedUntil : Option ℤ → List Transaction → Type 0
ReplayedUntil none done = done ≡ []
ReplayedUntil (some last) done = All (IsPast last) done

-- A sweep over `ts` that has replayed `done` and has `todo` to go.
pub record IsTracking (ts : List Transaction) (s : BalanceSweep) : Type 0 where
  pub done : List Transaction
  pub todo : List Transaction
  pub split : s.sorted ≡ done ++ todo
  pub at_cursor : s.cursor ≡ length done
  pub ordered : IsSorted by_time todo
  pub activity : All IsActivity todo
  pub past : ReplayedUntil s.last_as_of done
  pub balances : (a : ℕ) → get_or_zero a s.nanos ≡ total_opening ts a +ℤ total_delta done a
  pub total : (as_of : ℤ) (a : ℕ) → total_until as_of (done ++ todo) a ≡ total_until as_of ts a

-- A snapshot shows, for every account, the balance at its instant.
pub record ShowsBalances (ts : List Transaction) (as_of : ℤ) (snapshot : Snapshot) : Type 0 where
  pub instant : snapshot.as_of ≡ as_of
  pub shows : (a : ℕ) → get_or_zero a snapshot.nanos ≡ balance_at ts as_of a

pub new_balance_sweep-IsTracking :
    (ts : List Transaction) (stocks : List Stock) → IsTracking ts (new_balance_sweep ts stocks)
unfolding new_balance_sweep get_or_zero
new_balance_sweep-IsTracking ts stocks =
    let r = seed-Seeded ts [] [] tt in
    record {
      done = [];
      todo = sort by_time (seed ts [] []).1;
      split = refl;
      at_cursor = refl;
      ordered =
          sort-IsSorted by_time (λ a b. leb_ℤ_total (epoch_of a) (epoch_of b))
            (λ a b c. leb_ℤ_trans (epoch_of a) (epoch_of b) (epoch_of c)) (seed ts [] []).1;
      activity = sort-All by_time IsActivity (seed ts [] []).1 r.activity;
      past = refl;
      balances = λ a. rw (r.openings a) (omega int_laws);
      total = λ as_of a.
          rw (total_until-sort as_of (seed ts [] []).1 a, r.changes as_of a) (omega int_laws);
    }

drop-append : {A : Type 0} (xs ys : List A) → drop (length xs) (xs ++ ys) ≡ ys
drop-append [] ys = refl
drop-append (x ∷ xs) ys = drop-append xs ys

later-IsPast :
    (last as_of : ℤ) (ts : List Transaction)
    → last ≤ℤ as_of
    → All (IsPast last) ts
    → All (IsPast as_of) ts
later-IsPast last as_of [] h k = tt
later-IsPast last as_of (t ∷ ts) h k = (ground arith, later-IsPast last as_of ts h k.1)

ReplayedUntil-IsPast :
    (last : Option ℤ) (as_of : ℤ) (done : List Transaction)
    → IsFrom last as_of
    → ReplayedUntil last done
    → All (IsPast as_of) done
ReplayedUntil-IsPast none as_of done h k = rw k tt
ReplayedUntil-IsPast (some last) as_of done h k = later-IsPast last as_of done h k

not_before_of_IsFrom :
    (last : Option ℤ) (as_of : ℤ) → IsFrom last as_of → not_before as_of last ≡ true
not_before_of_IsFrom none as_of h = refl
not_before_of_IsFrom (some last) as_of h = ground arith

before_of_not-IsFrom :
    (last : Option ℤ) (as_of : ℤ) → ¬ IsFrom last as_of → not_before as_of last ≡ false
before_of_not-IsFrom none as_of h = absurd (h tt)
before_of_not-IsFrom (some last) as_of h = ground arith

IsFrom-dec : (last : Option ℤ) (as_of : ℤ) → Dec (IsFrom last as_of)
IsFrom-dec none as_of = yes tt
IsFrom-dec (some last) as_of = dec_le _ _

IsSorted-rest : (xs ys : List Transaction) → IsSorted by_time (xs ++ ys) → IsSorted by_time ys
IsSorted-rest [] ys h = h
IsSorted-rest (x ∷ xs) ys h = IsSorted-rest xs ys h.1

All-rest : (xs ys : List Transaction) → All IsActivity (xs ++ ys) → All IsActivity ys
All-rest [] ys h = h
All-rest (x ∷ xs) ys h = All-rest xs ys h.1

-- The balances after a replay, by the cut of the whole list at `as_of`.
shown :
    {ts : List Transaction} {as_of : ℤ} {s : BalanceSweep} (k : IsTracking ts s)
    (r : Replayed as_of k.todo s.nanos s.cursor) (a : ℕ)
    → total_until as_of ((k.done ++ r.done) ++ r.rest) a ≡ total_delta (k.done ++ r.done) a
    → k.done ++ k.todo ≡ (k.done ++ r.done) ++ r.rest
    → get_or_zero a r.nanos ≡ balance_at ts as_of a
shown {ts} {as_of} k r a cut whole =
    rw
      (
        r.balances a,
        k.balances a,
        ← k.total as_of a,
        whole,
        cut,
        total_delta-append k.done r.done a,
      )
      (omega int_laws)

-- One step: a call that does not go back in time succeeds, shows the balances of its instant, and
-- leaves a sweep that tracks the same transactions.
pub record Advanced (ts : List Transaction) (as_of : ℤ) (s : BalanceSweep) : Type 0 where
  pub snapshot : Snapshot
  pub sweep : BalanceSweep
  pub returns : advance_to as_of s ≡ ok (snapshot, sweep)
  pub balances : ShowsBalances ts as_of snapshot
  pub stocks : snapshot.stocks ≡ s.stocks
  pub tracking : IsTracking ts sweep
  pub last : sweep.last_as_of ≡ some as_of
  pub same_stocks : sweep.stocks ≡ s.stocks

pub advance_to-Advanced :
    (ts : List Transaction) (as_of : ℤ) (s : BalanceSweep)
    → IsTracking ts s
    → IsFrom s.last_as_of as_of
    → Advanced ts as_of s
unfolding advance_to
advance_to-Advanced ts as_of s k from =
    let r = replay-Replayed as_of k.todo s.nanos s.cursor k.activity k.ordered in
    let past : All (IsPast as_of) (k.done ++ r.done) =
      All-append _ k.done r.done (ReplayedUntil-IsPast s.last_as_of as_of k.done from k.past)
        r.past in
    let whole : k.done ++ k.todo ≡ (k.done ++ r.done) ++ r.rest =
      ap (λ l. k.done ++ l) r.split ∙ sym (append_assoc k.done r.done r.rest) in
    let ahead : drop s.cursor s.sorted ≡ k.todo =
      rw (k.split, k.at_cursor) (drop-append k.done k.todo) in
    record {
      snapshot = record { as_of = as_of; nanos = r.nanos; stocks = s.stocks };
      sweep = record s {
        nanos = r.nanos;
        cursor = s.cursor + length r.done;
        last_as_of = some as_of;
      };
      returns = rw (not_before_of_IsFrom s.last_as_of as_of from, ahead, r.returns);
      balances = record {
        instant = refl;
        shows = λ a.
            shown k r a (total_until_split as_of (k.done ++ r.done) r.rest a past r.future) whole;
      };
      stocks = refl;
      tracking = record {
        done = k.done ++ r.done;
        todo = r.rest;
        split = k.split ∙ whole;
        at_cursor = rw (length-append k.done r.done, k.at_cursor);
        ordered = IsSorted-rest r.done r.rest (rw r.split at k.ordered);
        activity = All-rest r.done r.rest (rw r.split at k.activity);
        past = past;
        balances = λ a.
            rw (r.balances a, k.balances a, total_delta-append k.done r.done a) (omega int_laws);
        total = λ at a. rw (← whole) (k.total at a);
      };
      last = refl;
      same_stocks = refl;
    }

-- Every call on one sweep, in turn.
pub snapshots_from : List ℤ → BalanceSweep → Result (List Snapshot)
snapshots_from [] sweep = ok []
snapshots_from (t ∷ times) sweep = do
  (snapshot, sweep') ← advance_to t sweep
  rest ← snapshots_from times sweep'
  ok (snapshot ∷ rest)

-- Each time is at or after the one before it.
abbrev pub IsNondecreasing : Option ℤ → List ℤ → Type 0
IsNondecreasing last [] = Unit
IsNondecreasing last (t ∷ times) = IsFrom last t × IsNondecreasing (some t) times

abbrev pub ShowEach : List Transaction → List ℤ → List Snapshot → Type 0
ShowEach ts [] [] = Unit
ShowEach ts (t ∷ times) (s ∷ snapshots) = ShowsBalances ts t s × ShowEach ts times snapshots
ShowEach ts _ _ = ⊥

snapshots_show :
    (ts : List Transaction) (times : List ℤ) (sweep : BalanceSweep)
    → IsTracking ts sweep
    → IsNondecreasing sweep.last_as_of times
    → (snapshots : List Snapshot) × (snapshots_from times sweep ≡ ok snapshots)
      × ShowEach ts times snapshots
unfolding snapshots_from
snapshots_show ts [] sweep k h = ([], refl, tt)
snapshots_show ts (t ∷ times) sweep k h =
    let d = advance_to-Advanced ts t sweep k h.0 in
    let (rest, returns, shows) = snapshots_show ts times d.sweep d.tracking (rw d.last h.1) in
    (d.snapshot ∷ rest, rw (d.returns, returns), (d.balances, shows))

-- Over any list of transactions and any times that never go back, a sweep answers every call, and
-- each snapshot has, for every account, all opening balances, whenever they were recorded, and
-- the changes of the transactions up to that time.
pub new_balance_sweep_shows :
    (ts : List Transaction) (stocks : List Stock) (times : List ℤ)
    → IsNondecreasing none times
    → (snapshots : List Snapshot) × (snapshots_from times (new_balance_sweep ts stocks)
        ≡ ok snapshots)
      × ShowEach ts times snapshots
unfolding new_balance_sweep
new_balance_sweep_shows ts stocks times h =
    snapshots_show ts times (new_balance_sweep ts stocks) (new_balance_sweep-IsTracking ts stocks) h

-- On a sweep that tracks a list of transactions, a call throws exactly when its time is before that
-- of the last call; else it answers, and the sweep goes on tracking the same transactions from the
-- new time.
pub advance_to_throws_iff :
    (ts : List Transaction) (as_of : ℤ) (s : BalanceSweep)
    → IsTracking ts s
    → IsFrom s.last_as_of as_of × Advanced ts as_of s
      ⊎ (¬ IsFrom s.last_as_of as_of) × (advance_to as_of s ≡ err decreasing_as_of)
unfolding advance_to
advance_to_throws_iff ts as_of s k = elim (IsFrom-dec s.last_as_of as_of) [
  | yes from ↦ inl (from, advance_to-Advanced ts as_of s k from)
  | no back ↦ inr (back, rw (before_of_not-IsFrom s.last_as_of as_of back))
]
