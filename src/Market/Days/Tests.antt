-- ===== src/Market/Days/Tests.antt =====
-- Tests of `backfillMissingDates` of frontend/lib/ClientSideModel.tsx, and the theorems at
-- concrete inputs.
use prosper.Prelude.{
  ℕ, ◌+◌, ◌*◌, ◌≡◌, refl, [], ◌∷◌, ◌++◌, arith, All, ok, err, ◌⊎◌, no_previous_value,
}
use prosper.Prelude.Int.{ℤ, pos, leb_ℤ, int_eq, ◌*ℤ◌, div_floor, div_trunc, ◌-ℤ◌, ◌+ℤ◌}
use prosper.Prelude.Maps.{lookup, keys}
use prosper.Prelude.Sort.{sort}
use prosper.Market.{Timeseries, day, backfill_missing_dates, utc_start_of_day}
use prosper.Market.Days.Carried.{last_before, backfill_missing_dates_carries}
use prosper.Market.Days.Returns.{
  IsPresent, all_but_last, backfill_missing_dates_throws_iff, backfill_missing_dates_leaves_today,
}

abbrev nth_day : ℕ → ℤ
nth_day n = pos (n * day)

-- A quote on one day and the next three days later, asked for an hour into day 6.
abbrev quotes : Timeseries
quotes = (nth_day 1, pos 700) ∷ (nth_day 4, pos 800) ∷ []

abbrev now : ℤ
now = pos (6 * day + 3_600_000_000_000)

abbrev filled : Timeseries
filled =
    (nth_day 1, pos 700)
    ∷ (nth_day 4, pos 800)
    ∷ (nth_day 2, pos 700)
    ∷ (nth_day 3, pos 700)
    ∷ (nth_day 5, pos 800)
    ∷ []

two_gaps : backfill_missing_dates now quotes ≡ ok filled
unfolding backfill_missing_dates ◌*ℤ◌ div_floor div_trunc ◌-ℤ◌ ◌+ℤ◌
two_gaps = refl

-- A quote of 0 counts as a missing one.
zero_refused : backfill_missing_dates now ((nth_day 1, pos 0) ∷ []) ≡ err no_previous_value
unfolding backfill_missing_dates ◌*ℤ◌ div_floor div_trunc ◌-ℤ◌ ◌+ℤ◌
zero_refused = refl

backfill_missing_dates_carries_example : lookup (nth_day 3) filled ≡ lookup (nth_day 1) quotes
unfolding last_before sort utc_start_of_day ◌*ℤ◌ div_floor div_trunc
backfill_missing_dates_carries_example =
    backfill_missing_dates_carries now (nth_day 3) (nth_day 1) quotes filled two_gaps
      (λ h. (2, refl), (λ h. absurd (omega arith), (λ h. absurd (omega arith), tt))) refl

backfill_missing_dates_throws_iff_example :
    let days = all_but_last (sort leb_ℤ (keys quotes ++ utc_start_of_day now ∷ [])) in
    All (IsPresent quotes) days
      × ((ts' : Timeseries) × (backfill_missing_dates now quotes ≡ ok ts'))
    ⊎ (¬ All (IsPresent quotes) days) × (backfill_missing_dates now quotes ≡ err no_previous_value)
backfill_missing_dates_throws_iff_example = backfill_missing_dates_throws_iff now quotes

backfill_missing_dates_leaves_today_example : lookup (nth_day 6) filled ≡ lookup (nth_day 6) quotes
unfolding utc_start_of_day ◌*ℤ◌ div_floor div_trunc
backfill_missing_dates_leaves_today_example =
    backfill_missing_dates_leaves_today now quotes filled two_gaps (omega arith, (omega arith, tt))
