-- ===== src/Util/Spacing/Order.antt =====
-- The order and the range of the numbers of `evenlySpacedNumbers`, frontend/lib/util/util.ts.
use prosper.Prelude.{
  ℕ, zero, suc, ◌+◌, ◌-◌, ◌*◌, ◌≤◌, ◌<◌, ◌≡◌, refl, sym, ◌∙◌, Bool, false, Bool-cases, inl, inr,
  ◌||◌, List, [], ◌∷◌, leb, if◌then◌else◌, arith, length, ok, ap, subst,
}
use prosper.Prelude.Int.{
  ℤ, pos, ◌+ℤ◌, ◌-ℤ◌, ◌*ℤ◌, ◌≤ℤ◌, ltb_ℤ, int_beq, div_floor, int_laws, -ℤ_parts, pos_part, neg_part,
}
use prosper.Prelude.Division.{
  div_floor_mono, div_floor-mul-add, pos_part-*ℤ, neg_part-*ℤ, *ℤ_mono, *ℤ_assoc,
}
use native.Mathlib.Nat.{mul-le-mul_left}
use prosper.Util.Spacing.{ms, sample, samples_from, evenly_spaced_numbers}

-- The samples follow one another from `last` on, without going back, up to `end`.
abbrev pub Climbs : ℤ → ℤ → List ℤ → Type 0
Climbs last end [] = last ≡ end
Climbs last end (t ∷ samples) = (last ≤ℤ t) × Climbs t end samples

-- The whole milliseconds.
abbrev pub IsWhole : ℤ → Type 0
IsWhole t = (n : ℤ) × (t ≡ n *ℤ pos ms)

module _ (start end : ℤ) (parts : ℕ) (range : start ≤ℤ end) (some_parts : 0 < parts) where
  span : (k : ℕ) × (end -ℤ start ≡ pos k)
  span = (pos_part end + neg_part start - (pos_part start + neg_part end), omega int_laws)

  sample_mono : (i j : ℕ) → i ≤ j → sample start end parts i ≤ℤ sample start end parts j
  unfolding sample
  sample_mono i j h =
      let (k, e) = span in
      *ℤ_mono _ _ ms (
        div_floor_mono _ _ (ms * parts) (omega arith)
          (rw e (omega (int_laws, pos_part-*ℤ, neg_part-*ℤ, mul-le-mul_left k h))))

  numerator_at_end : start *ℤ pos parts +ℤ (end -ℤ start) *ℤ pos parts ≡ end *ℤ pos parts
  numerator_at_end =
      omega (int_laws, pos_part-*ℤ, neg_part-*ℤ, ap (λ (t : ℕ). t * parts) (-ℤ_parts end start))

  at_whole :
      (t num : ℤ)
      → IsWhole t
      → num ≡ t *ℤ pos parts
      → div_floor (num +ℤ pos (500_000 * parts)) (ms * parts) *ℤ pos ms ≡ t
  at_whole t num (n, e) h =
      let scaled : num ≡ n *ℤ pos (ms * parts) =
        h ∙ (ap (λ (z : ℤ). z *ℤ pos parts) e ∙ *ℤ_assoc n ms parts) in
      rw (scaled, div_floor-mul-add n (ms * parts) (500_000 * parts) (omega arith)) (sym e)

  -- The last sample of a range that ends at a whole millisecond is its end.
  sample_at_end : IsWhole end → sample start end parts parts ≡ end
  unfolding sample
  sample_at_end w = at_whole end _ w numerator_at_end

  sample_at_start : IsWhole start → sample start end parts 0 ≡ start
  unfolding sample
  sample_at_start w = at_whole start _ w (omega (int_laws, pos_part-*ℤ, neg_part-*ℤ))

  samples_climb :
      IsWhole end
      → (left i : ℕ) (last : ℤ) → i + left ≡ parts
      → last ≤ℤ sample start end parts i
      → Climbs last end (samples_from start end parts left i)
  unfolding samples_from
  samples_climb w zero i last e h =
      let full : i ≡ parts = omega arith in
      (subst (λ z. last ≤ℤ z) (ap (sample start end parts) full ∙ sample_at_end w) h, refl)
  samples_climb w (suc left) i last e h = (
    h,
    samples_climb w left (i + 1) (sample start end parts i) (omega arith)
        (sample_mono i (i + 1) (omega arith)),
  )

length-samples_from :
    (start end : ℤ) (parts left i : ℕ) → length (samples_from start end parts left i) ≡ left + 1
unfolding samples_from
length-samples_from start end parts zero i = refl
length-samples_from start end parts (suc left) i =
    omega (arith, length-samples_from start end parts left (i + 1))

several_parts : (count : ℕ) (b : Bool) → (leb count 1 || b) ≡ false → 0 < count - 1
several_parts count b h = ground arith

in_order : (start end : ℤ) → start ≤ℤ end → ltb_ℤ end start ≡ false
in_order start end h = ground arith

-- On a range of whole milliseconds that does not run backwards the call succeeds: the numbers
-- never go back, none is before the start, the last is the end, and there are as many as wanted,
-- or one if at most one is wanted or the range is a point.
pub evenly_spaced_numbers_climb :
    (start end : ℤ) (count : ℕ)
    → IsWhole start
    → IsWhole end
    → start ≤ℤ end
    → (samples : List ℤ) × (evenly_spaced_numbers start end count ≡ ok samples)
      × Climbs start end samples
      × (length samples ≡ (if leb count 1 || int_beq end start then 1 else count))
unfolding evenly_spaced_numbers
evenly_spaced_numbers_climb start end count ws we range =
    elim (Bool-cases (leb count 1 || int_beq end start)) [
      | inl single ↦ (end ∷ [], rw (in_order start end range, single), (range, refl), rw single)
      | inr several ↦
          let some_parts = several_parts count _ several in
          (
            samples_from start end (count - 1) (count - 1) 0,
            rw (in_order start end range, several),
            samples_climb start end (count - 1) range some_parts we (count - 1) 0 start
                (omega arith)
                (subst (λ z. start ≤ℤ z)
                  (sym (sample_at_start start end (count - 1) range some_parts ws)) (omega arith)),
            rw several (omega (arith, length-samples_from start end (count - 1) (count - 1) 0)),
          )
    ]
