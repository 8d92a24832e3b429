-- ===== src/Search.antt =====
-- frontend/lib/search/visitor.tsx and the end of frontend/lib/search/search.tsx: the evaluation
-- of a search query that is parsed.
--
-- The parser is generated by ANTLR from TransactionSearchQuery.g4, so the tree is here a data
-- type with a constructor for each form of a rule of the grammar; a term comes with its quotes
-- taken off. The tests of frontend/lib/search/matchers.tsx on one transaction are parameters of
-- the visitor, since it only calls them; they may throw.
pub mod Meaning
pub mod Match
pub mod Tests
use prosper.Prelude.{
  ℕ, String, Bool, not, List, [], ◌∷◌, map, keep, if◌then◌else◌, Result, ok, ◌>>=◌,
}
use prosper.Transaction.{Transaction, id_of}
use prosper.Util.Sets.{intersect, union, contains}

pub data CaseMatch : Type 0 where
  exact case_insensitive : CaseMatch

pub data ComparisonOperator : Type 0 where
  less_than less_than_or_equal greater_than greater_than_or_equal : ComparisonOperator

pub record Term : Type 0 where
  pub text : String
  pub case_match : CaseMatch

-- The rules of the grammar; a repeated part is one that ends the list or one more before the rest.
mutual
  pub data Query : Type 0 where
    last_disj : DisjQuery → Query
    then_disj : DisjQuery → Query → Query

  pub data DisjQuery : Type 0 where
    last_conj : ConjQuery → DisjQuery
    or_conj : ConjQuery → DisjQuery → DisjQuery

  pub data ConjQuery : Type 0 where
    last_mod : ModClause → ConjQuery
    and_mod : ModClause → ConjQuery → ConjQuery

  pub data ModClause : Type 0 where
    plain : Clause → ModClause
    negated : Clause → ModClause

  pub data Clause : Type 0 where
    any_field : Term → Clause
    field_match : String → Term → Clause
    field_compare : String → ComparisonOperator → String → Clause
    grouping : Query → Clause

-- `xs.filter(p)` where `p` may throw.
unfoldable pub filter_result {ℓ} : {A : Type ℓ} → (A → Result Bool) → List A → Result (List A)
filter_result p [] = ok []
filter_result p (x ∷ xs) = do
  passes ← p x
  rest ← filter_result p xs
  ok (if passes then x ∷ rest else rest)

-- The tests on one transaction, over the banks, the categories and the rest that they read.
pub record Matchers : Type 0 where
  pub match_any_field : Transaction → Term → Result Bool
  pub match_field : Transaction → String → Term → Result Bool
  pub compare_field : Transaction → String → ComparisonOperator → String → Result Bool

module _ (m : Matchers) (transactions : List Transaction) where
  unfoldable pub all_ids : List ℕ
  all_ids = map id_of transactions

  -- `this.transactions.filter(…).map(t => t.id)`
  unfoldable pub matching_ids : (Transaction → Result Bool) → Result (List ℕ)
  unfolding filter_result
  matching_ids p = do matched ← filter_result p transactions; ok (map id_of matched)

  -- The ids of a set, in the order of the transactions.
  unfoldable pub in_order : List ℕ → List ℕ
  unfolding all_ids contains keep
  in_order set = keep (λ id. contains id set) all_ids

  unfoldable pub all_but : List ℕ → List ℕ
  unfolding all_ids contains keep
  all_but set = keep (λ id. not (contains id set)) all_ids

  -- The loops of `visitQuery`, `visitDisjQuery` and `visitConjQuery`, from a result so far.
  unfoldable mutual
    unfolding intersect union in_order all_but matching_ids all_ids

    pub visit_query : Query → List ℕ → Result (List ℕ)
    visit_query (last_disj d) result = do
      match ← visit_disj_query d []
      ok (intersect result (in_order match))
    visit_query (then_disj d q) result = do
      match ← visit_disj_query d []
      visit_query q (intersect result (in_order match))

    pub visit_disj_query : DisjQuery → List ℕ → Result (List ℕ)
    visit_disj_query (last_conj c) result = do
      match ← visit_conj_query c all_ids
      ok (union result match)
    visit_disj_query (or_conj c d) result = do
      match ← visit_conj_query c all_ids
      visit_disj_query d (union result match)

    pub visit_conj_query : ConjQuery → List ℕ → Result (List ℕ)
    visit_conj_query (last_mod c) result = do
      match ← visit_mod_clause c
      ok (intersect result match)
    visit_conj_query (and_mod c rest) result = do
      match ← visit_mod_clause c
      visit_conj_query rest (intersect result match)

    pub visit_mod_clause : ModClause → Result (List ℕ)
    visit_mod_clause (plain c) = visit_clause c
    visit_mod_clause (negated c) = do clause_match ← visit_clause c; ok (all_but clause_match)

    pub visit_clause : Clause → Result (List ℕ)
    visit_clause (any_field term) = matching_ids (λ t. m.match_any_field t term)
    visit_clause (field_match name term) = matching_ids (λ t. m.match_field t name term)
    visit_clause (field_compare name op term) = matching_ids (λ t. m.compare_field t name op term)
    visit_clause (grouping q) = visit_query q all_ids

  -- `search` of a query that is not blank and has no syntax error.
  unfoldable pub search_tree : Query → Result (List Transaction)
  unfolding visit_query contains keep
  search_tree tree = do
    matched_ids ← visit_query tree all_ids
    ok (keep (λ t. contains (id_of t) matched_ids) transactions)
