-- ===== src/Market/Days.antt =====
-- The days that `backfillMissingDates` of frontend/lib/ClientSideModel.tsx fills in.
pub mod Carried
pub mod Returns
pub mod Tests
use prosper.Prelude.{
  ℕ, zero, suc, ◌+◌, ◌*◌, ◌/◌, ◌≤◌, ◌<◌, ◌≡◌, refl, sym, ◌∙◌, Bool, true, false, ◌&&◌, Option, none,
  some, List, [], ◌∷◌, ◌++◌, arith, if◌then◌else◌, All, ◌==◌, Result, ok, err, ◌>>=◌, >>=-eq-ok,
  or_throw, or_throw-eq-ok, no_previous_value, Bool-cases, inl, inr,
}
use prosper.Prelude.Int.{
  ℤ, pos, ◌+ℤ◌, ◌-ℤ◌, ◌*ℤ◌, ◌≤ℤ◌, ◌<ℤ◌, ltb_ℤ, leb_ℤ, int_eq, int_beq, int_laws, pos_part, neg_part,
  eq_of_parts,
}
use prosper.Prelude.Maps.{lookup, insert, keys, lookup-insert, lookup-insert_self}
use prosper.Prelude.Sort.{sort, IsSorted}
use prosper.Market.{
  Timeseries, day, fill, fill_gaps, present_int, backfill_missing_dates, utc_start_of_day,
}

lookup-insert_later :
    (x y v : ℤ) (ts : Timeseries) → y <ℤ x → lookup y (insert x v ts) ≡ lookup y ts
lookup-insert_later x y v ts h = rw (lookup-insert x y v ts) (ground arith)

lookup-insert_earlier :
    (x y v : ℤ) (ts : Timeseries) → x <ℤ y → lookup y (insert x v ts) ≡ lookup y ts
lookup-insert_earlier x y v ts h = rw (lookup-insert x y v ts) (ground arith)

-- `fill` leaves the days before its first one.
pub lookup-fill_earlier :
    (n : ℕ) (x current v y : ℤ) (ts : Timeseries)
    → y <ℤ x
    → lookup y (fill n x current v ts) ≡ lookup y ts
unfolding fill
lookup-fill_earlier zero x current v y ts h = refl
lookup-fill_earlier (suc n) x current v y ts h = elim (Bool-cases (ltb_ℤ x current)) [
  | inl e ↦ rw e (
      lookup-fill_earlier n (x +ℤ pos day) current v y (insert x v ts) (omega (int_laws, h))
      ∙ lookup-insert_later x y v ts h)
  | inr e ↦ rw e refl
]

-- It leaves the days from `current` on.
pub lookup-fill_later :
    (n : ℕ) (x current v y : ℤ) (ts : Timeseries)
    → current ≤ℤ y
    → lookup y (fill n x current v ts) ≡ lookup y ts
unfolding fill
lookup-fill_later zero x current v y ts h = refl
lookup-fill_later (suc n) x current v y ts h = elim (Bool-cases (ltb_ℤ x current)) [
  | inl e ↦ rw e (
      lookup-fill_later n (x +ℤ pos day) current v y (insert x v ts) h
      ∙ lookup-insert_earlier x y v ts (ground arith))
  | inr e ↦ rw e refl
]

-- `y` is `i` days after `x`.
abbrev pub IsDaysAfter : ℕ → ℤ → ℤ → Type 0
IsDaysAfter i x y = pos_part y + neg_part x ≡ pos_part x + neg_part y + i * day

pub IsDaysAfter-next : (i : ℕ) (x y : ℤ) → IsDaysAfter (suc i) x y → IsDaysAfter i (x +ℤ pos day) y
IsDaysAfter-next i x y h = omega int_laws

ltb_ℤ_of_lt : (x y : ℤ) → x <ℤ y → ltb_ℤ x y ≡ true
ltb_ℤ_of_lt x y h = ground arith

-- It sets every day in steps of one from `x` that is before `current`.
pub lookup-fill :
    (n i : ℕ) (x current v y : ℤ) (ts : Timeseries)
    → i < n
    → IsDaysAfter i x y
    → y <ℤ current
    → lookup y (fill n x current v ts) ≡ some v
unfolding fill
lookup-fill zero i x current v y ts h at k = absurd (omega arith)
lookup-fill (suc n) zero x current v y ts h at k =
    let same : y ≡ x = eq_of_parts y x (omega arith) in
    rw (ltb_ℤ_of_lt x current (omega arith), same)
      (lookup-fill_earlier n (x +ℤ pos day) current v x (insert x v ts) (omega int_laws)
        ∙ lookup-insert_self x v ts)
lookup-fill (suc n) (suc i) x current v y ts h at k = rw (ltb_ℤ_of_lt x current (omega arith)) (
    lookup-fill n i (x +ℤ pos day) current v y (insert x v ts) (omega arith)
      (IsDaysAfter-next i x y at) k)
