-- ===== src/Market/Days/Returns.antt =====
-- When `backfillMissingDates` of frontend/lib/ClientSideModel.tsx throws.
use prosper.Prelude.{
  ◌+◌, ◌/◌, ◌≡◌, refl, ◌∙◌, some, List, [], ◌∷◌, ◌++◌, arith, All, All-append, ok, err,
  no_previous_value, Option-cases, ◌⊎◌, inl, inr,
}
use prosper.Prelude.Int.{
  ℤ, pos, ◌+ℤ◌, ◌-ℤ◌, ◌≤ℤ◌, leb_ℤ, int_eq, pos_part, leb_ℤ_total, leb_ℤ_trans,
}
use prosper.Prelude.Maps.{lookup, keys}
use prosper.Prelude.Sort.{sort, IsSorted, sort-IsSorted, sort-All}
use prosper.Market.{
  Timeseries, day, fill, fill_gaps, present_int, backfill_missing_dates, utc_start_of_day,
}
use prosper.Market.Days.{lookup-fill_later}
use prosper.Market.Days.Carried.{leb_ℤ_le, gap}

-- The series has a value other than 0 on the day.
abbrev pub IsPresent : Timeseries → ℤ → Type 0
IsPresent ts d = (v : ℤ) × (present_int (lookup d ts) ≡ some v)

abbrev pub all_but_last : List ℤ → List ℤ
all_but_last (d ∷ e ∷ rest) = d ∷ all_but_last (e ∷ rest)
all_but_last _ = []

-- A property of the days from `e` on passes along a sorted list that starts there.
All-from :
    (P Q : ℤ → Type 0) (e d : ℤ) (rest : List ℤ)
    → ((y : ℤ) → e ≤ℤ y → P y → Q y)
    → e ≤ℤ d
    → IsSorted leb_ℤ (d ∷ rest)
    → All P (all_but_last (d ∷ rest))
    → All Q (all_but_last (d ∷ rest))
All-from P Q e d [] f h sorted k = tt
All-from P Q e d (c ∷ rest) f h sorted k =
    let step = leb_ℤ_le d c sorted.0.0 in
    (f d h k.0, All-from P Q e c rest f (omega arith) sorted.1 k.1)

pub fill_gaps-cases :
    (days : List ℤ) (ts : Timeseries)
    → IsSorted leb_ℤ days
    → All (IsPresent ts) (all_but_last days) × ((ts' : Timeseries) × (fill_gaps days ts ≡ ok ts'))
      ⊎ (¬ All (IsPresent ts) (all_but_last days)) × (fill_gaps days ts ≡ err no_previous_value)
unfolding fill_gaps
fill_gaps-cases [] ts sorted = inl (tt, (ts, refl))
fill_gaps-cases (d ∷ []) ts sorted = inl (tt, (ts, refl))
fill_gaps-cases (d ∷ e ∷ rest) ts sorted = elim (Option-cases (present_int (lookup d ts))) [
  | inl missing ↦ inr (λ all. ground arith, rw missing refl)
  | inr (v, found) ↦
      let ts1 = fill (pos_part (e -ℤ d) / day + 1) (d +ℤ pos day) e v ts in
      let same = λ (y : ℤ) (h : e ≤ℤ y).
        lookup-fill_later (pos_part (e -ℤ d) / day + 1) (d +ℤ pos day) e v y ts h in
      elim (fill_gaps-cases (e ∷ rest) ts1 sorted.1) [
        | inl (all, (ts', done)) ↦ inl (
          (
            (v, found),
            All-from (IsPresent ts1) (IsPresent ts) e e rest (λ y h p. (p.0, rw (← same y h) p.1))
                (omega arith) sorted.1 all,
          ),
          (ts', rw found done),
        )
        | inr (some_missing, fails) ↦ inr (
          λ all. some_missing (
              All-from (IsPresent ts) (IsPresent ts1) e e rest (λ y h p. (p.0, rw (same y h) p.1))
                (omega arith) sorted.1 all.1),
          rw found fails,
        )
      ]
]

-- The backfilling succeeds when each day of the series, the day of the call counted as one, has a
-- value other than 0, the last of them excepted; else it throws.
pub backfill_missing_dates_throws_iff :
    (now : ℤ) (ts : Timeseries)
    → let days = all_but_last (sort leb_ℤ (keys ts ++ utc_start_of_day now ∷ [])) in
      All (IsPresent ts) days × ((ts' : Timeseries) × (backfill_missing_dates now ts ≡ ok ts'))
      ⊎ (¬ All (IsPresent ts) days) × (backfill_missing_dates now ts ≡ err no_previous_value)
unfolding backfill_missing_dates
backfill_missing_dates_throws_iff now ts =
    let days = keys ts ++ utc_start_of_day now ∷ [] in
    fill_gaps-cases (sort leb_ℤ days) ts (sort-IsSorted leb_ℤ leb_ℤ_total leb_ℤ_trans days)

fill_gaps_after :
    (days : List ℤ) (y : ℤ) (ts ts' : Timeseries)
    → All (λ d. d ≤ℤ y) days
    → fill_gaps days ts ≡ ok ts'
    → lookup y ts' ≡ lookup y ts
unfolding fill_gaps
fill_gaps_after [] y ts ts' h done = let same : ts ≡ ts' = cc in rw (← same) refl
fill_gaps_after (d ∷ []) y ts ts' h done = let same : ts ≡ ts' = cc in rw (← same) refl
fill_gaps_after (d ∷ e ∷ rest) y ts ts' h done =
    let (v, found, later) = gap d e rest ts ts' done in
    fill_gaps_after (e ∷ rest) y _ ts' h.1 later
    ∙ lookup-fill_later (pos_part (e -ℤ d) / day + 1) (d +ℤ pos day) e v y ts h.1.0

-- The day of the call gets no value that it did not have, if no day of the series is after it:
-- the last day that is filled in is the one before.
pub backfill_missing_dates_leaves_today :
    (now : ℤ) (ts ts' : Timeseries)
    → backfill_missing_dates now ts ≡ ok ts'
    → All (λ d. d ≤ℤ utc_start_of_day now) (keys ts)
    → lookup (utc_start_of_day now) ts' ≡ lookup (utc_start_of_day now) ts
unfolding backfill_missing_dates
backfill_missing_dates_leaves_today now ts ts' done h =
    let today = utc_start_of_day now in
    let days = keys ts ++ today ∷ [] in
    fill_gaps_after (sort leb_ℤ days) today ts ts'
      (sort-All leb_ℤ (λ d. d ≤ℤ today) days
        (All-append (λ d. d ≤ℤ today) (keys ts) (today ∷ []) h (omega arith, tt)))
      done
