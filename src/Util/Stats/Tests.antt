-- ===== src/Util/Stats/Tests.antt =====
-- Tests of frontend/lib/util/stats.tsx, and the theorems at concrete inputs.
use mathlib.Core.List.{Perm}
use prosper.Prelude.{
  ℕ, ◌-◌, ◌*◌, ◌≤◌, ◌<◌, ◌≡◌, refl, true, some, List, [], ◌∷◌, ◌++◌, map, arith, length, All, ok,
  err, bad_percentile, no_data, bad_window,
}
use prosper.Prelude.Int.{ℤ, pos, leb_ℤ, sum, ◌+ℤ◌, ◌-ℤ◌}
use prosper.Prelude.Sort.{IsSorted}
use prosper.Util.Stats.{percentile, running_average, top_n, larger_first}
use prosper.Util.Stats.Percentile.{count_up_to, count_below, percentile_nearest_rank}
use prosper.Util.Stats.Largest.{top_n_largest}

abbrev four : List ℤ
four = pos 400 ∷ pos 100 ∷ pos 300 ∷ pos 200 ∷ []

three_quarters : percentile four (pos 75) ≡ ok (some (pos 300))
unfolding percentile
three_quarters = refl

just_more : percentile four (pos 76) ≡ ok (some (pos 400))
unfolding percentile
just_more = refl

-- The percentile 0 is the first item, which need not be the least.
first_item : percentile four (pos 0) ≡ ok (some (pos 400))
unfolding percentile
first_item = refl

too_high : percentile four (pos 101) ≡ err bad_percentile
unfolding percentile
too_high = refl

of_nothing : percentile [] (pos 1) ≡ err no_data
unfolding percentile
of_nothing = refl

pairs :
    running_average (pos 1 ∷ pos 2 ∷ pos 3 ∷ []) (pos 2)
    ≡ ok (
        record { total = pos 1; count = 1 }
        ∷ record { total = pos 3; count = 2 }
        ∷ record { total = pos 5; count = 2 }
        ∷ [])
unfolding running_average ◌+ℤ◌ ◌-ℤ◌
pairs = refl

no_window : running_average [] (pos 0) ≡ err bad_window
unfolding running_average
no_window = refl

abbrev spent : List (ℕ × ℤ)
spent = (1, pos 10) ∷ (2, pos 30) ∷ (3, pos 20) ∷ (4, pos 5) ∷ []

two_largest :
    top_n spent 2
    ≡ record { top = (2, pos 30) ∷ (3, pos 20) ∷ []; other_sum = pos 15; other_count = 2 }
unfolding top_n ◌+ℤ◌
two_largest = refl

percentile_nearest_rank_example :
    (v : ℤ) × (percentile four (pos 75) ≡ ok (some v))
    × (length four * 75 ≤ 100 * count_up_to v four)
    × (100 * count_below v four < length four * 75)
percentile_nearest_rank_example =
    percentile_nearest_rank four 75 (omega arith) (omega arith) (omega arith)

top_n_largest_example :
    let r = top_n spent 2 in
    (others : List (ℕ × ℤ)) × Perm (r.top ++ others) spent
    × IsSorted larger_first r.top
    × All (λ t. All (λ (o : ℕ × ℤ). leb_ℤ o.1 t.1 ≡ true) others) r.top
    × (r.other_sum ≡ sum (map (λ e. e.1) others))
    × (r.other_count ≡ length others)
    × (length others ≡ length spent - 2)
top_n_largest_example = top_n_largest spent 2
