-- ===== src/Search/Meaning/Visit.antt =====
-- The visitor of frontend/lib/search/visitor.tsx finds what a query means.
use prosper.Prelude.{
  ℕ, ◌≡◌, refl, ap, ◌∙◌, Bool, not, ◌&&◌, ◌||◌, List, [], ◌∷◌, map, keep, arith, nat_eq,
  if◌then◌else◌, All, Result, ok,
}
use prosper.Transaction.{Transaction, id_of}
use prosper.Util.Sets.{contains, intersect, union}
use prosper.Util.Sets.Counts.{count, smaller, count-intersect, contains-union, or_assoc}
use prosper.Search.{
  Query, DisjQuery, ConjQuery, ModClause, Clause, last_disj, then_disj, last_conj, or_conj,
  last_mod, and_mod, plain, negated, any_field, field_match, field_compare, grouping, Matchers,
  all_ids, matching_ids, in_order, all_but, visit_query, visit_disj_query, visit_conj_query,
  visit_mod_clause, visit_clause, search_tree,
}
use prosper.Search.Meaning.{
  FieldTests, Answers, holds_query, holds_disj, holds_conj, holds_mod, holds_clause, Once, bit,
  count-map-id_of-Once, count-keep-Once, count-keep, contains-count, filter_result-keep,
  smaller_and,
}

module _ (m : Matchers) (tests : FieldTests) (ts : List Transaction) where
  -- The ids of exactly the transactions of the list that pass a test.
  abbrev Selected : List ℕ → (Transaction → Bool) → Type 0
  Selected ids h = (t : Transaction) → Once t ts → count (id_of t) ids ≡ bit (h t)

  -- Of a result so far, the transactions that pass a test.
  abbrev Narrowed : List ℕ → List ℕ → (Transaction → Bool) → Type 0
  Narrowed r ids h =
      (t : Transaction) → Once t ts → count (id_of t) ids ≡ smaller (count (id_of t) r) (bit (h t))

  -- A result so far, and the transactions that pass a test.
  abbrev Joined : List ℕ → List ℕ → (Transaction → Bool) → Type 0
  Joined r ids h =
      (t : Transaction) → Once t ts → contains (id_of t) ids ≡ (contains (id_of t) r || h t)

  count-all_ids : (t : Transaction) → Once t ts → count (id_of t) (all_ids m ts) ≡ 1
  unfolding all_ids
  count-all_ids t h = count-map-id_of-Once t ts h

  in_order-Selected :
      (ids : List ℕ) (h : Transaction → Bool) → Joined [] ids h → Selected (in_order m ts ids) h
  unfolding in_order contains
  in_order-Selected ids h j t once =
      count-keep (id_of t) (λ id. contains id ids) (all_ids m ts)
      ∙ rw (j t once, count-all_ids t once) (one_if (h t))
    where
      one_if : (b : Bool) → (if b then 1 else 0) ≡ bit b
      one_if b = ground arith

  all_but-Selected :
      (ids : List ℕ) (h : Transaction → Bool)
      → Selected ids h
      → Selected (all_but m ts ids) (λ t. not (h t))
  unfolding all_but
  all_but-Selected ids h s t once =
      count-keep (id_of t) (λ id. not (contains id ids)) (all_ids m ts)
      ∙ rw (contains-count (id_of t) ids (h t) (s t once), count-all_ids t once) (one_unless (h t))
    where
      one_unless : (b : Bool) → (if not b then 1 else 0) ≡ bit (not b)
      one_unless b = ground arith

  intersect-Narrowed :
      (r ids : List ℕ) (h : Transaction → Bool) → Selected ids h → Narrowed r (intersect r ids) h
  intersect-Narrowed r ids h s t once =
      count-intersect (id_of t) r ids ∙ ap (smaller (count (id_of t) r)) (s t once)

  Narrowed-then :
      (r mid ids : List ℕ) (a b : Transaction → Bool)
      → Narrowed r mid a
      → Narrowed mid ids b
      → Narrowed r ids (λ t. a t && b t)
  Narrowed-then r mid ids a b f g t once =
      g t once
      ∙ ap (λ n. smaller n (bit (b t))) (f t once)
      ∙ smaller_and (count (id_of t) r) (a t) (b t)

  Narrowed-Selected :
      (ids : List ℕ) (h : Transaction → Bool) → Narrowed (all_ids m ts) ids h → Selected ids h
  Narrowed-Selected ids h f t once =
      f t once ∙ ap (λ n. smaller n (bit (h t))) (count-all_ids t once) ∙ one_at_most (h t)
    where
      one_at_most : (b : Bool) → smaller 1 (bit b) ≡ bit b
      one_at_most b = ground arith

  union-Joined :
      (r ids : List ℕ) (h : Transaction → Bool) → Selected ids h → Joined r (union r ids) h
  union-Joined r ids h s t once =
      contains-union (id_of t) r ids
      ∙ ap (λ b. contains (id_of t) r || b) (contains-count (id_of t) ids (h t) (s t once))

  Joined-then :
      (r mid ids : List ℕ) (a b : Transaction → Bool)
      → Joined r mid a
      → Joined mid ids b
      → Joined r ids (λ t. a t || b t)
  Joined-then r mid ids a b f g t once =
      g t once ∙ ap (λ c. c || b t) (f t once) ∙ or_assoc (contains (id_of t) r) (a t) (b t)

  matching_ids-Selected :
      (p : Transaction → Result Bool) (h : Transaction → Bool)
      → All (λ t. p t ≡ ok (h t)) ts
      → (ids : List ℕ) × (matching_ids m ts p ≡ ok ids) × Selected ids h
  unfolding matching_ids
  matching_ids-Selected p h a = (
    map id_of (keep h ts),
    rw (filter_result-keep p h ts a) refl,
    λ t once. count-keep-Once t h ts once,
  )

  module _ (answers : All (Answers m tests) ts) where
    All-answer :
        (P : Transaction → Type 0) → ((t : Transaction) → Answers m tests t → P t) → All P ts
    All-answer P f = from ts answers
      where
        from : (l : List Transaction) → All (Answers m tests) l → All P l
        from [] a = tt
        from (t ∷ l) a = (f t a.0, from l a.1)

    mutual
      unfolding visit_query visit_disj_query visit_conj_query visit_mod_clause visit_clause
          holds_query holds_disj holds_conj holds_mod holds_clause

      pub query_found :
          (q : Query) (r : List ℕ)
          → (ids : List ℕ) × (visit_query m ts q r ≡ ok ids)
            × Narrowed r ids (λ t. holds_query tests t q)
      query_found (last_disj d) r =
          let (set, visited, joined) = disj_found d [] in
          let chosen = in_order-Selected set (λ t. holds_disj tests t d) joined in
          (
            intersect r (in_order m ts set),
            rw visited refl,
            intersect-Narrowed r (in_order m ts set) (λ t. holds_disj tests t d) chosen,
          )
      query_found (then_disj d q) r =
          let (set, visited, joined) = disj_found d [] in
          let chosen = in_order-Selected set (λ t. holds_disj tests t d) joined in
          let mid = intersect r (in_order m ts set) in
          let (ids, later, narrowed) = query_found q mid in
          (
            ids,
            rw visited later,
            Narrowed-then r mid ids (λ t. holds_disj tests t d) (λ t. holds_query tests t q)
                (intersect-Narrowed r (in_order m ts set) (λ t. holds_disj tests t d) chosen)
                narrowed,
          )

      disj_found :
          (d : DisjQuery) (r : List ℕ)
          → (ids : List ℕ) × (visit_disj_query m ts d r ≡ ok ids)
            × Joined r ids (λ t. holds_disj tests t d)
      disj_found (last_conj c) r =
          let (set, visited, narrowed) = conj_found c (all_ids m ts) in
          let chosen = Narrowed-Selected set (λ t. holds_conj tests t c) narrowed in
          (union r set, rw visited refl, union-Joined r set (λ t. holds_conj tests t c) chosen)
      disj_found (or_conj c d) r =
          let (set, visited, narrowed) = conj_found c (all_ids m ts) in
          let chosen = Narrowed-Selected set (λ t. holds_conj tests t c) narrowed in
          let (ids, later, joined) = disj_found d (union r set) in
          (
            ids,
            rw visited later,
            Joined-then r (union r set) ids (λ t. holds_conj tests t c) (λ t. holds_disj tests t d)
                (union-Joined r set (λ t. holds_conj tests t c) chosen) joined,
          )

      conj_found :
          (c : ConjQuery) (r : List ℕ)
          → (ids : List ℕ) × (visit_conj_query m ts c r ≡ ok ids)
            × Narrowed r ids (λ t. holds_conj tests t c)
      conj_found (last_mod c) r =
          let (set, visited, chosen) = mod_found c in
          (
            intersect r set,
            rw visited refl,
            intersect-Narrowed r set (λ t. holds_mod tests t c) chosen,
          )
      conj_found (and_mod c rest) r =
          let (set, visited, chosen) = mod_found c in
          let (ids, later, narrowed) = conj_found rest (intersect r set) in
          (
            ids,
            rw visited later,
            Narrowed-then r (intersect r set) ids (λ t. holds_mod tests t c)
                (λ t. holds_conj tests t rest)
                (intersect-Narrowed r set (λ t. holds_mod tests t c) chosen) narrowed,
          )

      mod_found :
          (c : ModClause)
          → (ids : List ℕ) × (visit_mod_clause m ts c ≡ ok ids)
            × Selected ids (λ t. holds_mod tests t c)
      mod_found (plain c) = clause_found c
      mod_found (negated c) =
          let (set, visited, chosen) = clause_found c in
          (
            all_but m ts set,
            rw visited refl,
            all_but-Selected set (λ t. holds_clause tests t c) chosen,
          )

      clause_found :
          (c : Clause)
          → (ids : List ℕ) × (visit_clause m ts c ≡ ok ids)
            × Selected ids (λ t. holds_clause tests t c)
      clause_found (any_field term) =
          matching_ids-Selected (λ t. m.match_any_field t term) (λ t. tests.any_field_test t term)
            (All-answer _ (λ t a. a.on_any_field term))
      clause_found (field_match name term) =
          matching_ids-Selected (λ t. m.match_field t name term) (λ t. tests.field_test t name term)
            (All-answer _ (λ t a. a.on_field name term))
      clause_found (field_compare name op term) =
          matching_ids-Selected (λ t. m.compare_field t name op term)
            (λ t. tests.compare_test t name op term)
            (All-answer _ (λ t a. a.on_compare name op term))
      clause_found (grouping q) =
          let (ids, visited, narrowed) = query_found q (all_ids m ts) in
          (ids, visited, Narrowed-Selected ids (λ t. holds_query tests t q) narrowed)

    -- The transactions that a test picks by their ids are those that another picks, if the two
    -- agree on every transaction.
    keep_congr :
        (p q : Transaction → Bool) (l : List Transaction)
        → All (λ t. p t ≡ q t) l
        → keep p l ≡ keep q l
    unfolding keep
    keep_congr p q [] a = refl
    keep_congr p q (t ∷ l) a = rw (a.0, keep_congr p q l a.1) refl

    -- When no two transactions have the same id and the matchers throw on none, a search gives
    -- exactly the transactions that the query holds for, in their order.
    pub search_tree_finds :
        (q : Query)
        → All (λ t. Once t ts) ts
        → search_tree m ts q ≡ ok (keep (λ t. holds_query tests t q) ts)
    unfolding search_tree
    search_tree_finds q once =
        let (ids, visited, narrowed) = query_found q (all_ids m ts) in
        let chosen = Narrowed-Selected ids (λ t. holds_query tests t q) narrowed in
        rw visited (
          ap (λ l. ok l)
            (keep_congr (λ t. contains (id_of t) ids) (λ t. holds_query tests t q) ts
              (pointwise ids chosen ts once)))
      where
        pointwise :
            (ids : List ℕ)
            → Selected ids (λ t. holds_query tests t q)
            → (l : List Transaction) → All (λ t. Once t ts) l
            → All (λ t. contains (id_of t) ids ≡ holds_query tests t q) l
        pointwise ids s [] a = tt
        pointwise ids s (t ∷ l) a =
            (contains-count (id_of t) ids (holds_query tests t q) (s t a.0), pointwise ids s l a.1)
