-- ===== src/Util/Sets.antt =====
-- frontend/lib/util/set.tsx: intersection and union of lists of numbers.
pub mod Counts
pub mod Tests
use prosper.Prelude.{
  ℕ, ◌+◌, ◌-◌, Bool, true, false, Option, none, some, List, [], ◌∷◌, ◌++◌, ◌==◌, nat_eq,
  if◌then◌else◌, ltb, nat_beq, length, any,
}
use prosper.Prelude.Maps.{Assoc, lookup, insert}

-- The first loop: how often each number of a list occurs.
unfoldable pub frequencies : List ℕ → Assoc ℕ ℕ → Assoc ℕ ℕ
unfolding lookup insert
frequencies [] freq = freq
frequencies (x ∷ xs) freq = elim (lookup x freq) [
  | none ↦ frequencies xs (insert x 1 freq)
  | some existing ↦ frequencies xs (insert x (existing + 1) freq)
]

-- `freq.get(value)` with a missing count and a count of 0 alike.
abbrev pub left_over : ℕ → Assoc ℕ ℕ → ℕ
left_over value freq = elim (lookup value freq) [ none ↦ 0 | some f ↦ f ]

-- The filter of the other list, which uses up the counts.
unfoldable pub take_counted : List ℕ → Assoc ℕ ℕ → List ℕ
unfolding lookup insert
take_counted [] freq = []
take_counted (value ∷ b) freq =
    let taken = value ∷ take_counted b (insert value (left_over value freq - 1) freq) in
    let skipped = take_counted b freq in if nat_beq (left_over value freq) 0 then skipped else taken

-- `intersect` of lists of which the first is not longer than the second.
unfoldable pub intersect_ordered : List ℕ → List ℕ → List ℕ
unfolding frequencies take_counted
intersect_ordered a b = take_counted b (frequencies a [])

unfoldable pub intersect : List ℕ → List ℕ → List ℕ
unfolding intersect_ordered
intersect a b = if ltb (length b) (length a) then intersect_ordered b a else intersect_ordered a b

-- `set.has(value)` and `set.add(value)` of a set in the order of insertion.
unfoldable pub contains : ℕ → List ℕ → Bool
unfolding any
contains value set = any (λ x. x == value) set

unfoldable pub add_all : List ℕ → List ℕ → List ℕ
unfolding contains
add_all set [] = set
add_all set (value ∷ b) =
    let known = add_all set b in
    let added = add_all (set ++ value ∷ []) b in if contains value set then known else added

unfoldable pub union : List ℕ → List ℕ → List ℕ
unfolding add_all
union a b = add_all (add_all [] a) b
