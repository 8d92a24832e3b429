-- ===== src/Util/Collections.antt =====
-- frontend/lib/collections.ts: the different items of a list, the most frequent first.
pub mod Frequency
mod Tests
use prosper.Prelude.{ℕ, ◌+◌, Bool, Option, none, some, List, [], ◌∷◌, Eq, map, leb}
use prosper.Prelude.Maps.{Assoc, lookup, insert, keys}
use prosper.Prelude.Sort.{sort}

-- The comparator: a larger count is not put behind a smaller one.
unfoldable pub more_frequent {ℓ} : {T : Type ℓ} → T × ℕ → T × ℕ → Bool
more_frequent a b = leb b.1 a.1

-- `items.filter(notEmpty)`
unfoldable pub filter_not_empty {ℓ} : {T : Type ℓ} → List (Option T) → List T
filter_not_empty [] = []
filter_not_empty (none ∷ items) = filter_not_empty items
filter_not_empty (some x ∷ items) = x ∷ filter_not_empty items

module _ {ℓ} {T : Type ℓ} ⦃e : Eq T⦄ where
  -- `frequency.get(x) ?? 0`
  abbrev pub frequency_of : T → Assoc T ℕ → ℕ
  frequency_of x frequency = elim (lookup x frequency) [ none ↦ 0 | some f ↦ f ]

  -- The loop that counts the items.
  unfoldable pub count_all : List T → Assoc T ℕ → Assoc T ℕ
  unfolding lookup insert
  count_all [] frequency = frequency
  count_all (x ∷ items) frequency =
      count_all items (insert x (frequency_of x frequency + 1) frequency)

  unfoldable pub uniq_most_frequent : List T → List T
  unfolding count_all sort more_frequent
  uniq_most_frequent items = keys (sort more_frequent (count_all items []))

  unfoldable pub uniq_most_frequent_ignoring_empty : List (Option T) → List T
  unfolding uniq_most_frequent filter_not_empty
  uniq_most_frequent_ignoring_empty items = uniq_most_frequent (filter_not_empty items)
