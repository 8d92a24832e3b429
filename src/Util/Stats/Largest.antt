-- ===== src/Util/Stats/Largest.antt =====
-- What `topN` of frontend/lib/util/stats.tsx takes and leaves.
use mathlib.Core.List.{Perm}
use prosper.Prelude.{
  ℕ, zero, suc, ◌-◌, ◌≡◌, refl, sym, ap, ◌∙◌, subst, true, Bool, List, [], ◌∷◌, ◌++◌, map, length,
  length-drop, take, drop, All,
}
use prosper.Prelude.Int.{ℤ, pos, sum, sum_from-eq-sum, leb_ℤ, zero_+ℤ, leb_ℤ_total, leb_ℤ_trans}
use prosper.Prelude.Sort.{sort, IsSorted, sort-perm, sort-IsSorted, length-sort}
use prosper.Util.Stats.{top_n, larger_first}

module _ {ℓ} {A : Type ℓ} where
  take-append-drop : (n : ℕ) (xs : List A) → take n xs ++ drop n xs ≡ xs
  take-append-drop zero xs = refl
  take-append-drop (suc n) [] = refl
  take-append-drop (suc n) (x ∷ xs) = ap (λ ys. x ∷ ys) (take-append-drop n xs)

  All-drop : (P : A → Type 0) (n : ℕ) (xs : List A) → All P xs → All P (drop n xs)
  All-drop P zero xs h = h
  All-drop P (suc n) [] h = h
  All-drop P (suc n) (x ∷ xs) h = All-drop P n xs h.1

  All-take : (P : A → Type 0) (n : ℕ) (xs : List A) → All P xs → All P (take n xs)
  All-take P zero xs h = tt
  All-take P (suc n) [] h = h
  All-take P (suc n) (x ∷ xs) h = (h.0, All-take P n xs h.1)

  module _ (le : A → A → Bool) where
    -- The first elements of a sorted list are in order, and before the rest.
    take-IsSorted : (n : ℕ) (xs : List A) → IsSorted le xs → IsSorted le (take n xs)
    take-IsSorted zero xs h = tt
    take-IsSorted (suc n) [] h = h
    take-IsSorted (suc n) (x ∷ xs) h = (All-take _ n xs h.0, take-IsSorted n xs h.1)

    take-before-drop :
        (n : ℕ) (xs : List A)
        → IsSorted le xs
        → All (λ t. All (λ o. le t o ≡ true) (drop n xs)) (take n xs)
    take-before-drop zero xs h = tt
    take-before-drop (suc n) [] h = tt
    take-before-drop (suc n) (x ∷ xs) h = (All-drop _ n xs h.0, take-before-drop n xs h.1)

-- The entries are those taken, in order, the larger first, and others, none larger than one that is
-- taken; the others give their sum and their number, which is that of all entries less `n`.
pub top_n_largest {ℓ} :
    {K : Type ℓ} (items : List (K × ℤ)) (n : ℕ)
    → let r = top_n items n in
      (others : List (K × ℤ)) × Perm (r.top ++ others) items
      × IsSorted larger_first r.top
      × All (λ t. All (λ (o : K × ℤ). leb_ℤ o.1 t.1 ≡ true) others) r.top
      × (r.other_sum ≡ sum (map (λ e. e.1) others))
      × (r.other_count ≡ length others)
      × (length others ≡ length items - n)
unfolding top_n larger_first
top_n_largest items n =
    let sorted = sort larger_first items in
    let in_order =
      sort-IsSorted larger_first (λ a b h. leb_ℤ_total b.1 a.1 h)
        (λ a b c h k. leb_ℤ_trans c.1 b.1 a.1 k h) items in
    (
      drop n sorted,
      subst (λ l. Perm l items) (sym (take-append-drop n sorted)) (sort-perm larger_first items),
      take-IsSorted larger_first n sorted in_order,
      take-before-drop larger_first n sorted in_order,
      sum_from-eq-sum (pos 0) (map (λ e. e.1) (drop n sorted)) ∙ zero_+ℤ _,
      refl,
      length-drop n sorted ∙ ap (λ m. m - n) (length-sort larger_first items),
    )
