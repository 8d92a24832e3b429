-- ===== src/Util/Spacing.antt =====
-- `evenlySpacedNumbers` of frontend/lib/util/util.ts, on times. The spacing is computed exactly,
-- where the code computes it in doubles.
pub mod Order
use prosper.Prelude.{
  ℕ, zero, suc, ◌+◌, ◌-◌, ◌*◌, ◌≤◌, ◌<◌, ◌≡◌, refl, Bool, true, false, ◌||◌, List, [], ◌∷◌, ◌++◌,
  leb, if◌then◌else◌, arith, length, Result, ok, err, bad_range,
}
use prosper.Prelude.Int.{
  ℤ, pos, negsuc, ◌+ℤ◌, ◌-ℤ◌, ◌*ℤ◌, ◌≤ℤ◌, ltb_ℤ, int_beq, div_floor, int_laws,
}

-- Nanoseconds in a millisecond, and half of it.
abbrev pub ms : ℕ
ms = 1_000_000

-- `Math.round(start + step * i)` in milliseconds, with `step` = (end - start) / parts.
unfoldable pub sample : ℤ → ℤ → ℕ → ℕ → ℤ
sample start end parts i =
    div_floor (start *ℤ pos parts +ℤ (end -ℤ start) *ℤ pos i +ℤ pos (500_000 * parts)) (ms * parts)
    *ℤ pos ms

-- The loop `for (let i = …; i < count - 1; i++)`, with `left` rounds to go.
unfoldable pub samples_from : ℤ → ℤ → ℕ → ℕ → ℕ → List ℤ
unfolding sample
samples_from start end parts zero i = end ∷ []
samples_from start end parts (suc left) i =
    sample start end parts i ∷ samples_from start end parts left (i + 1)

unfoldable pub evenly_spaced_numbers : ℤ → ℤ → ℕ → Result (List ℤ)
unfolding samples_from
evenly_spaced_numbers start end count =
    if ltb_ℤ end start
    then err bad_range
    else if leb count 1 || int_beq end start
    then ok (end ∷ [])
    else ok (samples_from start end (count - 1) (count - 1) 0)
