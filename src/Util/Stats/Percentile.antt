-- ===== src/Util/Stats/Percentile.antt =====
-- The rank of what `percentile` of frontend/lib/util/stats.tsx returns.
use native.Mathlib.Nat.{mul-le-mul_left}
use prosper.Prelude.{
  ℕ, zero, suc, ◌+◌, ◌*◌, ◌/◌, ◌-◌, ◌≤◌, ◌<◌, ◌≡◌, refl, ◌∙◌, Bool, true, some, List, [], ◌∷◌,
  arith, length, keep, get_elem?, All, ok,
}
use prosper.Prelude.Int.{ℤ, pos, ltb_ℤ, leb_ℤ, leb_ℤ_total, leb_ℤ_trans}
use prosper.Prelude.Sort.{sort, insert_sorted, IsSorted, sort-IsSorted, length-sort}
use prosper.Util.Stats.{percentile, percentile_of, position_of}

-- How many of the data are at most this value, and how many are below it.
abbrev pub count_up_to : ℤ → List ℤ → ℕ
count_up_to v items = length (keep (λ x. leb_ℤ x v) items)

abbrev pub count_below : ℤ → List ℤ → ℕ
count_below v items = length (keep (λ x. ltb_ℤ x v) items)

module _ {ℓ} {A : Type ℓ} (le : A → A → Bool) (p : A → Bool) where
  length-keep-insert_sorted :
      (x : A) (ys : List A) → length (keep p (insert_sorted le x ys)) ≡ length (keep p (x ∷ ys))
  unfolding keep insert_sorted
  length-keep-insert_sorted x [] = refl
  length-keep-insert_sorted x (y ∷ ys) = ground (arith, length-keep-insert_sorted x ys)

  -- Sorting does not change how many elements pass a test.
  length-keep-sort : (xs : List A) → length (keep p (sort le xs)) ≡ length (keep p xs)
  unfolding keep sort
  length-keep-sort [] = refl
  length-keep-sort (x ∷ xs) =
      length-keep-insert_sorted x (sort le xs) ∙ ground (arith, length-keep-sort xs)

none-count_below : (v : ℤ) (xs : List ℤ) → All (λ y. leb_ℤ v y ≡ true) xs → count_below v xs ≡ 0
unfolding keep
none-count_below v [] h = refl
none-count_below v (x ∷ xs) h = ground (arith, none-count_below v xs h.1)

get_elem?-All :
    (x v : ℤ) (xs : List ℤ) (k : ℕ)
    → All (λ y. leb_ℤ x y ≡ true) xs
    → get_elem? xs k ≡ some v
    → leb_ℤ x v ≡ true
get_elem?-All x v [] k h e = cc
get_elem?-All x v (y ∷ ys) zero h e = cc
get_elem?-All x v (y ∷ ys) (suc k) h e = get_elem?-All x v ys k h.1 e

count_up_to-next :
    (x v : ℤ) (xs : List ℤ) → leb_ℤ x v ≡ true → count_up_to v (x ∷ xs) ≡ suc (count_up_to v xs)
unfolding keep
count_up_to-next x v xs h = rw h refl

count_below-next : (x v : ℤ) (xs : List ℤ) → count_below v (x ∷ xs) ≤ suc (count_below v xs)
unfolding keep
count_below-next x v xs = ground arith

count_up_to-first : (x : ℤ) (xs : List ℤ) → 0 < count_up_to x (x ∷ xs)
unfolding keep
count_up_to-first x xs = ground arith

count_below-first :
    (x : ℤ) (xs : List ℤ) → All (λ y. leb_ℤ x y ≡ true) xs → count_below x (x ∷ xs) ≤ 0
unfolding keep
count_below-first x xs h = ground (arith, none-count_below x xs h)

-- The element at a position of a sorted list, by the elements before it.
sorted_rank :
    (xs : List ℤ) (k : ℕ)
    → IsSorted leb_ℤ xs
    → k < length xs
    → (v : ℤ) × (get_elem? xs k ≡ some v) × (k < count_up_to v xs) × (count_below v xs ≤ k)
sorted_rank [] k s h = absurd (omega arith)
sorted_rank (x ∷ xs) zero s h = (x, refl, count_up_to-first x xs, count_below-first x xs s.0)
sorted_rank (x ∷ xs) (suc k) s h =
    let (v, e, up, below) = sorted_rank xs k s.1 (omega arith) in
    let first = get_elem?-All x v xs k s.0 e in
    (
      v,
      e,
      omega (arith, count_up_to-next x v xs first, up),
      omega (arith, count_below-next x v xs, below),
    )

-- The position, for a product `m` of the number of items and the percentile.
ceil_bounds :
    (n m : ℕ)
    → 0 < m
    → m ≤ n * 100
    → ((m + 99) / 100 - 1 < n)
      × (m ≤ 100 * suc ((m + 99) / 100 - 1))
      × (100 * ((m + 99) / 100 - 1) < m)
ceil_bounds n m h k = (omega arith, omega arith, omega arith)

position_of_bounds :
    (n p : ℕ)
    → 0 < n
    → 0 < p
    → p ≤ 100
    → (position_of n p < n)
      × (n * p ≤ 100 * suc (position_of n p))
      × (100 * position_of n p < n * p)
position_of_bounds n p h k l =
    ceil_bounds n (n * p) (omega (arith, mul-le-mul_left n k)) (mul-le-mul_left n l)

-- The branch of a percentile above 0 on some items.
percentile-nonzero :
    (x : ℤ) (xs : List ℤ) (p : ℕ)
    → 0 < p
    → p ≤ 100
    → percentile (x ∷ xs) (pos p)
      ≡ ok (get_elem? (sort leb_ℤ (x ∷ xs)) (position_of (length (x ∷ xs)) p))
unfolding percentile percentile_of
percentile-nonzero x xs p k l = ground arith

-- Nearest rank: from a percentile of 1 to 100 of some data, what is returned is at least as large as
-- `p` percent of the items, and fewer than `p` percent of them are below it.
pub percentile_nearest_rank :
    (items : List ℤ) (p : ℕ)
    → 0 < length items
    → 0 < p
    → p ≤ 100
    → (v : ℤ) × (percentile items (pos p) ≡ ok (some v))
      × (length items * p ≤ 100 * count_up_to v items)
      × (100 * count_below v items < length items * p)
percentile_nearest_rank [] p h k l = absurd (omega arith)
percentile_nearest_rank (x ∷ xs) p h k l =
    let items : List ℤ = x ∷ xs in
    let (inside, up, below) = position_of_bounds (length items) p h k l in
    let (v, e, more, fewer) =
      sorted_rank (sort leb_ℤ items) (position_of (length items) p)
        (sort-IsSorted leb_ℤ leb_ℤ_total leb_ℤ_trans items)
        (omega (arith, length-sort leb_ℤ items, inside)) in
    (
      v,
      percentile-nonzero x xs p k l ∙ rw e refl,
      omega (arith, up, more, length-keep-sort leb_ℤ (λ y. leb_ℤ y v) items),
      omega (arith, below, fewer, length-keep-sort leb_ℤ (λ y. ltb_ℤ y v) items),
    )
