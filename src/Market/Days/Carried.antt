-- ===== src/Market/Days/Carried.antt =====
-- The values that `backfillMissingDates` of frontend/lib/ClientSideModel.tsx carries forward.
use prosper.Prelude.{
  ℕ, zero, suc, ◌+◌, ◌/◌, ◌<◌, ◌≡◌, refl, sym, ap, ◌∙◌, true, ◌&&◌, Option, none, some, List, [],
  ◌∷◌, ◌++◌, arith, if◌then◌else◌, All, ok, >>=-eq-ok, or_throw, or_throw-eq-ok, no_previous_value,
  Bool-cases, inl, inr,
}
use prosper.Prelude.Int.{
  ℤ, pos, ◌+ℤ◌, ◌-ℤ◌, ◌≤ℤ◌, ◌<ℤ◌, ltb_ℤ, leb_ℤ, int_eq, int_laws, pos_part, eq_of_parts,
  leb_ℤ_total, leb_ℤ_trans,
}
use prosper.Prelude.Maps.{lookup, keys}
use prosper.Prelude.Sort.{sort, IsSorted, sort-IsSorted, sort-All}
use prosper.Market.{
  Timeseries, day, fill, fill_gaps, present_int, backfill_missing_dates, utc_start_of_day,
}
use prosper.Market.Days.{
  IsDaysAfter, IsDaysAfter-next, lookup-fill, lookup-fill_earlier, lookup-fill_later,
}

-- The day of a sorted list that is the last one at or before `x`, if there is a later one in the
-- list.
unfoldable pub last_before : ℤ → List ℤ → Option ℤ
last_before x (d ∷ e ∷ rest) =
    let later = last_before x (e ∷ rest) in if leb_ℤ d x && ltb_ℤ x e then some d else later
last_before x _ = none

-- The days of a list are whole days from `x`.
abbrev pub IsAlignedWith : ℤ → ℤ → Type 0
IsAlignedWith x d = d ≤ℤ x → (i : ℕ) × IsDaysAfter i d x

present_int-value : (o : Option ℤ) (v : ℤ) → present_int o ≡ some v → o ≡ some v
present_int-value none v h = cc
present_int-value (some n) v h = ground arith

pub leb_ℤ_le : (a b : ℤ) → leb_ℤ a b ≡ true → a ≤ℤ b
leb_ℤ_le a b h = ground arith

last_before_from_head :
    (x d e : ℤ) (rest : List ℤ)
    → IsSorted leb_ℤ (e ∷ rest)
    → last_before x (e ∷ rest) ≡ some d
    → e ≤ℤ d
unfolding last_before
last_before_from_head x d e [] sorted h = cc
last_before_from_head x d e (f ∷ rest) sorted h = elim (Bool-cases (leb_ℤ e x && ltb_ℤ x f)) [
  | inl t ↦ let same : e ≡ d = ground arith in rw same (omega arith)
  | inr t ↦
      let later = last_before_from_head x d f rest sorted.1 (rw t at h) in
      let step = leb_ℤ_le e f sorted.0.0 in omega arith
]

-- One gap of the list: what the round leaves for the next one.
pub gap :
    (d e : ℤ) (rest : List ℤ) (ts ts' : Timeseries)
    → fill_gaps (d ∷ e ∷ rest) ts ≡ ok ts'
    → (v : ℤ) × (lookup d ts ≡ some v)
      × (fill_gaps (e ∷ rest) (fill (pos_part (e -ℤ d) / day + 1) (d +ℤ pos day) e v ts) ≡ ok ts')
unfolding fill_gaps
gap d e rest ts ts' h =
    let (v, found, later) =
      >>=-eq-ok (or_throw (present_int (lookup d ts)) no_previous_value) _ h in
    (
      v,
      present_int-value (lookup d ts) v
          (or_throw-eq-ok (present_int (lookup d ts)) no_previous_value found),
      later,
    )

fill_gaps_kept :
    (d y : ℤ) (rest : List ℤ) (ts ts' : Timeseries)
    → IsSorted leb_ℤ (d ∷ rest)
    → y ≤ℤ d
    → fill_gaps (d ∷ rest) ts ≡ ok ts'
    → lookup y ts' ≡ lookup y ts
unfolding fill_gaps
fill_gaps_kept d y [] ts ts' sorted h done = let same : ts ≡ ts' = cc in rw (← same) refl
fill_gaps_kept d y (e ∷ rest) ts ts' sorted h done =
    let (v, found, later) = gap d e rest ts ts' done in
    let step = leb_ℤ_le d e sorted.0.0 in
    fill_gaps_kept e y rest _ ts' sorted.1 (omega arith) later
    ∙ lookup-fill_earlier _ (d +ℤ pos day) e v y ts (omega int_laws)

rounds : (i : ℕ) (d e x : ℤ) → IsDaysAfter (suc i) d x → x <ℤ e → i < pos_part (e -ℤ d) / day + 1
rounds i d e x at h = omega int_laws

-- The days of one gap have the value of the day before it.
in_gap :
    (i : ℕ) (x d e v : ℤ) (ts : Timeseries)
    → lookup d ts ≡ some v
    → IsDaysAfter i d x
    → x <ℤ e
    → lookup x (fill (pos_part (e -ℤ d) / day + 1) (d +ℤ pos day) e v ts) ≡ lookup d ts
in_gap zero x d e v ts found at h =
    let same : x ≡ d = eq_of_parts x d (omega arith) in
    rw same (lookup-fill_earlier _ (d +ℤ pos day) e v d ts (omega int_laws))
in_gap (suc i) x d e v ts found at h =
    lookup-fill (pos_part (e -ℤ d) / day + 1) i (d +ℤ pos day) e v x ts (rounds i d e x at h)
      (IsDaysAfter-next i d x at) h
    ∙ sym found

fill_gaps-lookup :
    (x d : ℤ) (days : List ℤ) (ts ts' : Timeseries)
    → IsSorted leb_ℤ days
    → All (IsAlignedWith x) days
    → last_before x days ≡ some d
    → fill_gaps days ts ≡ ok ts'
    → lookup x ts' ≡ lookup d ts
unfolding last_before
fill_gaps-lookup x d [] ts ts' sorted aligned h done = cc
fill_gaps-lookup x d (e ∷ []) ts ts' sorted aligned h done = cc
fill_gaps-lookup x d (e ∷ f ∷ rest) ts ts' sorted aligned h done =
    let (v, found, later) = gap e f rest ts ts' done in
    elim (Bool-cases (leb_ℤ e x && ltb_ℤ x f)) [
      | inl t ↦
          let same : e ≡ d = ground arith in
          let (i, at) = aligned.0 (ground arith) in
          fill_gaps_kept f x rest _ ts' sorted.1 (ground arith) later
          ∙ in_gap i x e f v ts found at (ground arith)
          ∙ ap (λ k. lookup k ts) same
      | inr t ↦
          let h' = rw t at h in
          fill_gaps-lookup x d (f ∷ rest) _ ts' sorted.1 aligned.1 h' later
          ∙ lookup-fill_later _ (e +ℤ pos day) f v d ts
              (last_before_from_head x d f rest sorted.1 h')
    ]

-- When the backfilling succeeds, each day has the value of the last day of the series at or before
-- it, if a later day follows; the day of the call counts as one of the series. The days that the
-- series has are to be whole days apart from it.
pub backfill_missing_dates_carries :
    (now x d : ℤ) (ts ts' : Timeseries)
    → backfill_missing_dates now ts ≡ ok ts'
    → All (IsAlignedWith x) (keys ts ++ utc_start_of_day now ∷ [])
    → last_before x (sort leb_ℤ (keys ts ++ utc_start_of_day now ∷ [])) ≡ some d
    → lookup x ts' ≡ lookup d ts
unfolding backfill_missing_dates
backfill_missing_dates_carries now x d ts ts' done aligned h =
    let days = keys ts ++ utc_start_of_day now ∷ [] in
    fill_gaps-lookup x d (sort leb_ℤ days) ts ts' (sort-IsSorted leb_ℤ leb_ℤ_total leb_ℤ_trans days)
      (sort-All leb_ℤ (IsAlignedWith x) days aligned) h done
