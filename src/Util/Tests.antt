-- ===== src/Util/Tests.antt =====
-- Tests of the helpers, and the theorems at concrete inputs.
use prosper.Prelude.{◌≡◌, refl, List, [], ◌∷◌, length, ok, arith}
use prosper.Prelude.Int.{pos, negsuc, ◌+ℤ◌, ◌-ℤ◌, ◌*ℤ◌, div_floor}
use prosper.Money.{Amount}
use prosper.Util.Spacing.{evenly_spaced_numbers}
use prosper.Util.Spacing.Order.{Climbs, evenly_spaced_numbers_climb}

three_samples :
    evenly_spaced_numbers (pos 0) (pos 5_000_000) 3
    ≡ ok (pos 0 ∷ pos 3_000_000 ∷ pos 5_000_000 ∷ [])
unfolding evenly_spaced_numbers div_floor ◌+ℤ◌ ◌-ℤ◌ ◌*ℤ◌
three_samples = refl

evenly_spaced_numbers_climb_example :
    (samples : List _) × (evenly_spaced_numbers (pos 0) (pos 5_000_000) 3 ≡ ok samples)
    × Climbs (pos 0) (pos 5_000_000) samples
    × (length samples ≡ 3)
unfolding ◌*ℤ◌
evenly_spaced_numbers_climb_example =
    evenly_spaced_numbers_climb (pos 0) (pos 5_000_000) 3 (pos 0, refl) (pos 5, refl) (omega arith)

abbrev minus_half : Amount
minus_half = record { amount_nanos = negsuc 499_999_999 }
