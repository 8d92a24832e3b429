-- ===== src/Util/Collections/Tests.antt =====
-- Tests of frontend/lib/collections.ts, and the theorem at a concrete input.
use prosper.Prelude.{ℕ, ◌≡◌, refl, none, some, List, [], ◌∷◌, nat_eq, if◌then◌else◌, nat_beq}
use prosper.Prelude.Sort.{IsSorted}
use prosper.Util.Collections.{uniq_most_frequent, uniq_most_frequent_ignoring_empty}
use prosper.Util.Collections.Frequency.{occurrences, as_often, uniq_most_frequent_ranks}

abbrev some_items : List ℕ
some_items = 1 ∷ 2 ∷ 2 ∷ 3 ∷ 3 ∷ 3 ∷ []

most_frequent_first : uniq_most_frequent some_items ≡ 3 ∷ 2 ∷ 1 ∷ []
unfolding uniq_most_frequent
most_frequent_first = refl

first_appearance_first : uniq_most_frequent {T = ℕ} (2 ∷ 1 ∷ []) ≡ 2 ∷ 1 ∷ []
unfolding uniq_most_frequent
first_appearance_first = refl

empty_ignored :
    uniq_most_frequent_ignoring_empty {T = ℕ} (some 1 ∷ none ∷ some 2 ∷ none ∷ some 2 ∷ [])
    ≡ 2 ∷ 1 ∷ []
unfolding uniq_most_frequent_ignoring_empty
empty_ignored = refl

uniq_most_frequent_ranks_example :
    ((x : ℕ)
      → occurrences x (uniq_most_frequent some_items)
        ≡ (if nat_beq (occurrences x some_items) 0 then 0 else 1))
    × IsSorted (as_often some_items) (uniq_most_frequent some_items)
uniq_most_frequent_ranks_example = uniq_most_frequent_ranks some_items
