-- ===== src/Util/Collections/Frequency.antt =====
-- What the list of frontend/lib/collections.ts holds, and in which order.
use prosper.Prelude.{
  ℕ, ◌+◌, ◌≡◌, refl, ◌∙◌, Bool, true, false, none, some, List, [], ◌∷◌, Eq, ◌==◌, arith,
  if◌then◌else◌, leb, nat_beq, All, Bool-cases, inl, inr,
}
use prosper.Prelude.Maps.{Assoc, lookup, insert, lookup-insert, keys, beq_refl}
use prosper.Prelude.Sort.{sort, insert_sorted, sort-All, sort-IsSorted, IsSorted}
use prosper.Util.Collections.{more_frequent, frequency_of, count_all, uniq_most_frequent}

module _ {ℓ} {T : Type ℓ} ⦃e : Eq T⦄ where
  -- How often an item occurs in a list.
  abbrev pub occurrences : T → List T → ℕ
  occurrences x [] = 0
  occurrences x (y ∷ ys) = let rest = occurrences x ys in if y == x then rest + 1 else rest

  -- The first of two items occurs at least as often in the list as the second.
  abbrev pub as_often : List T → T → T → Bool
  as_often items a b = leb (occurrences b items) (occurrences a items)

  -- A key is stored once, if it was stored at most once before.
  occurrences-insert :
      (x k : T) (v : ℕ) (m : Assoc T ℕ)
      → occurrences x (keys (insert k v m)) ≡ (
          if k == x
          then (if nat_beq (occurrences x (keys m)) 0 then 1 else occurrences x (keys m))
          else occurrences x (keys m))
  unfolding insert
  occurrences-insert x k v [] = ground arith
  occurrences-insert x k v ((i, old) ∷ m) =
      ground (arith, occurrences-insert x k v m, e.test_iff i k, e.test_iff k x, e.test_iff i x)

  frequency_of-insert :
      (k x : T) (n : ℕ) (m : Assoc T ℕ)
      → frequency_of x (insert k n m) ≡ (if k == x then n else frequency_of x m)
  frequency_of-insert k x n m = ground (arith, lookup-insert k x n m)

  frequency_of-count_all :
      (x : T) (items : List T) (m : Assoc T ℕ)
      → frequency_of x (count_all items m) ≡ occurrences x items + frequency_of x m
  unfolding count_all
  frequency_of-count_all x [] m = omega arith
  frequency_of-count_all x (y ∷ ys) m = ground (
    arith,
    frequency_of-count_all x ys (insert y (frequency_of y m + 1) m),
    frequency_of-insert y x (frequency_of y m + 1) m,
    e.test_iff y x,
  )

  -- Of an item that occurs, or is stored, there is one key.
  occurrences-count_all :
      (x : T) (items : List T) (m : Assoc T ℕ)
      → occurrences x (keys (count_all items m)) ≡ (
          if nat_beq (occurrences x (keys m)) 0
          then (if nat_beq (occurrences x items) 0 then 0 else 1)
          else occurrences x (keys m))
  unfolding count_all
  occurrences-count_all x [] m = ground arith
  occurrences-count_all x (y ∷ ys) m = ground (
    arith,
    occurrences-count_all x ys (insert y (frequency_of y m + 1) m),
    occurrences-insert x y (frequency_of y m + 1) m,
  )

  occurrences-insert_sorted :
      (le : T × ℕ → T × ℕ → Bool) (x : T) (a : T × ℕ) (l : Assoc T ℕ)
      → occurrences x (keys (insert_sorted le a l)) ≡ occurrences x (a.0 ∷ keys l)
  unfolding insert_sorted
  occurrences-insert_sorted le x a [] = refl
  occurrences-insert_sorted le x a (b ∷ l) = ground (arith, occurrences-insert_sorted le x a l)

  occurrences-sort :
      (le : T × ℕ → T × ℕ → Bool) (x : T) (l : Assoc T ℕ)
      → occurrences x (keys (sort le l)) ≡ occurrences x (keys l)
  unfolding sort
  occurrences-sort le x [] = refl
  occurrences-sort le x (a ∷ l) =
      ground (arith, occurrences-insert_sorted le x a (sort le l), occurrences-sort le x l)

  -- No key is stored twice.
  abbrev HasDistinctKeys : Assoc T ℕ → Type 0
  HasDistinctKeys [] = Unit
  HasDistinctKeys ((k, v) ∷ m) = (lookup k m ≡ none) × HasDistinctKeys m

  insert-HasDistinctKeys :
      (k : T) (v : ℕ) (m : Assoc T ℕ) → HasDistinctKeys m → HasDistinctKeys (insert k v m)
  unfolding insert lookup
  insert-HasDistinctKeys k v [] h = (refl, tt)
  insert-HasDistinctKeys k v ((i, old) ∷ m) h = elim (Bool-cases (i == k)) [
    | inl same ↦ rw same h
    | inr other ↦ rw other (
      ground (arith, lookup-insert k i v m, e.test_iff k i, e.test_iff i k),
      insert-HasDistinctKeys k v m h.1,
    )
  ]

  count_all-HasDistinctKeys :
      (items : List T) (m : Assoc T ℕ) → HasDistinctKeys m → HasDistinctKeys (count_all items m)
  unfolding count_all
  count_all-HasDistinctKeys [] m h = h
  count_all-HasDistinctKeys (x ∷ items) m h =
      count_all-HasDistinctKeys items (insert x (frequency_of x m + 1) m)
        (insert-HasDistinctKeys x (frequency_of x m + 1) m h)

  -- Entries that a larger map answers for in the same way.
  Agree-cons :
      (k : T) (v : ℕ) (m l : Assoc T ℕ)
      → lookup k m ≡ none
      → All (λ a. lookup a.0 m ≡ some a.1) l
      → All (λ a. lookup a.0 ((k, v) ∷ m) ≡ some a.1) l
  unfolding lookup
  Agree-cons k v m [] h all = tt
  Agree-cons k v m ((i, n) ∷ l) h all = (ground (arith, e.test_iff k i), Agree-cons k v m l h all.1)

  lookup-entries : (m : Assoc T ℕ) → HasDistinctKeys m → All (λ a. lookup a.0 m ≡ some a.1) m
  unfolding lookup
  lookup-entries [] h = tt
  lookup-entries ((k, v) ∷ m) h =
      (rw (beq_refl k) refl, Agree-cons k v m m h.0 (lookup-entries m h.1))

  entries_counted :
      (items : List T) (m l : Assoc T ℕ)
      → ((x : T) → frequency_of x m ≡ occurrences x items)
      → All (λ a. lookup a.0 m ≡ some a.1) l
      → All (λ a. a.1 ≡ occurrences a.0 items) l
  entries_counted items m [] counts all = tt
  entries_counted items m (a ∷ l) counts all =
      (ground (arith, counts a.0), entries_counted items m l counts all.1)

  -- Each entry has the number of times that its item occurs.
  count_all_counted : (items : List T) → All (λ a. a.1 ≡ occurrences a.0 items) (count_all items [])
  unfolding lookup
  count_all_counted items =
      let m = count_all items [] in
      entries_counted items m m (λ x. frequency_of-count_all x items [] ∙ omega arith)
        (lookup-entries m (count_all-HasDistinctKeys items [] tt))

  as_often_all :
      (items : List T) (a : T × ℕ) (l : Assoc T ℕ)
      → a.1 ≡ occurrences a.0 items
      → All (λ b. b.1 ≡ occurrences b.0 items) l
      → All (λ b. more_frequent a b ≡ true) l
      → All (λ y. as_often items a.0 y ≡ true) (keys l)
  unfolding more_frequent
  as_often_all items a [] h all below = tt
  as_often_all items a (b ∷ l) h all below = (ground arith, as_often_all items a l h all.1 below.1)

  keys-IsSorted :
      (items : List T) (l : Assoc T ℕ)
      → All (λ a. a.1 ≡ occurrences a.0 items) l
      → IsSorted more_frequent l
      → IsSorted (as_often items) (keys l)
  keys-IsSorted items [] all h = tt
  keys-IsSorted items (a ∷ l) all h =
      (as_often_all items a l all.0 all.1 h.0, keys-IsSorted items l all.1 h.1)

  more_frequent_total : (a b : T × ℕ) → more_frequent a b ≡ false → more_frequent b a ≡ true
  unfolding more_frequent
  more_frequent_total a b h = ground arith

  more_frequent_trans :
      (a b c : T × ℕ)
      → more_frequent a b ≡ true
      → more_frequent b c ≡ true
      → more_frequent a c ≡ true
  unfolding more_frequent
  more_frequent_trans a b c h k = ground arith

  -- Each item that occurs is in the list once and nothing else is, and an item that is before
  -- another occurs at least as often.
  pub uniq_most_frequent_ranks :
      (items : List T)
      → ((x : T)
          → occurrences x (uniq_most_frequent items)
            ≡ (if nat_beq (occurrences x items) 0 then 0 else 1))
        × IsSorted (as_often items) (uniq_most_frequent items)
  unfolding uniq_most_frequent
  uniq_most_frequent_ranks items = (
    λ x. occurrences-sort more_frequent x (count_all items []) ∙ occurrences-count_all x items [],
    keys-IsSorted items (sort more_frequent (count_all items []))
        (sort-All more_frequent (λ a. a.1 ≡ occurrences a.0 items) (count_all items [])
          (count_all_counted items))
        (sort-IsSorted more_frequent more_frequent_total more_frequent_trans (count_all items [])),
  )
