-- ===== src/Search/Match/Consistent.antt =====
-- The searches of frontend/lib/search/search.tsx over transactions that refer to what is there.
use prosper.Prelude.{
  ℕ, String, ◌≡◌, refl, sym, ap, ◌∙◌, Bool, false, List, [], ◌∷◌, keep, All, Result, ok, err,
}
use prosper.Prelude.Text.{is_blank}
use prosper.Category.{CategoryTree, make_category_tree}
use prosper.Category.Walk.{IsRanked}
use prosper.Transaction.{Transaction}
use prosper.Search.{case_insensitive, Query, last_disj, last_conj, last_mod, plain, any_field}
use prosper.Search.Meaning.{FieldTests, Answers, holds_query, Once, filter_result-keep}
use prosper.Search.Meaning.Visit.{search_tree_finds}
use prosper.Search.Match.Fields.{Runtime}
use prosper.Search.Match.Choice.{
  Lists, SearchParams, lists_of, match_any_field, match_field, compare_field, matchers, search,
  fallback_search,
}
use prosper.Search.Match.Returns.{Returns}
use prosper.Search.Match.Total.{IsReferenced, match_any_field-Returns, match_field-Returns}

-- What a test says; no, if it throws.
abbrev says : Result Bool → Bool
says (ok b) = b
says (err _) = false

abbrev pub field_tests : Runtime → Lists → FieldTests
field_tests run m = record {
  any_field_test = λ t term. says (match_any_field run m t term);
  field_test = λ t name term. says (match_field run m t name term);
  compare_test = compare_field run;
}

says_lem : (r : Result Bool) → Returns r → r ≡ ok (says r)
says_lem (ok b) h = refl
says_lem (err e) (b, h) = cc

-- A word without quotes or operators.
abbrev pub single_word : String → Query
single_word word = last_disj (
    last_conj
      (last_mod (plain (any_field (record { text = word; case_match = case_insensitive })))))

module _ (run : Runtime) (parse : String → Result Query) (query : String) (p : SearchParams)
    (tree : Query) (categories : CategoryTree) (rank : ℕ → ℕ) (wanted : is_blank query ≡ false)
    (parsed : parse query ≡ ok tree) (made : make_category_tree p.categories ≡ ok categories)
    (ranked : IsRanked rank categories.nodes)
    (referenced : All (IsReferenced (lists_of p categories) rank) p.transactions)
    (once : All (λ t. Once t p.transactions) p.transactions) where
  answers :
      (t : Transaction)
      → IsReferenced (lists_of p categories) rank t
      → Answers (matchers run (lists_of p categories)) (field_tests run (lists_of p categories)) t
  unfolding matchers
  answers t r = record {
    on_any_field = λ term.
        says_lem _ (match_any_field-Returns (lists_of p categories) rank run ranked t term r);
    on_field = λ name term.
        says_lem _ (match_field-Returns (lists_of p categories) rank run ranked t name term r);
    on_compare = λ name op term. refl;
  }

  each-Answers :
      (ts : List Transaction)
      → All (IsReferenced (lists_of p categories) rank) ts
      → All
          (Answers (matchers run (lists_of p categories)) (field_tests run (lists_of p categories)))
          ts
  each-Answers [] h = tt
  each-Answers (t ∷ ts) h = (answers t h.0, each-Answers ts h.1)

  pub search_consistent :
      search run parse query p
      ≡ ok (keep (λ t. holds_query (field_tests run (lists_of p categories)) t tree) p.transactions)
  unfolding search
  search_consistent =
      rw (wanted, parsed, made)
        (search_tree_finds (matchers run (lists_of p categories))
          (field_tests run (lists_of p categories)) p.transactions
          (each-Answers p.transactions referenced) tree once)

  any_field_answers :
      (ts : List Transaction)
      → All (IsReferenced (lists_of p categories) rank) ts
      → All
          (λ t.
            match_any_field run
              (lists_of p categories)
              t
              (record { text = query; case_match = case_insensitive })
            ≡ ok (holds_query (field_tests run (lists_of p categories)) t (single_word query)))
          ts
  unfolding holds_query
  any_field_answers [] h = tt
  any_field_answers (t ∷ ts) h = (
    says_lem _ (match_any_field-Returns (lists_of p categories) rank run ranked t _ h.0),
    any_field_answers ts h.1,
  )

  fallback_search_consistent :
      fallback_search run query p
      ≡ ok (
          keep
            (λ t. holds_query (field_tests run (lists_of p categories)) t (single_word query))
            p.transactions)
  unfolding fallback_search
  fallback_search_consistent =
      rw (wanted, made)
        (filter_result-keep _ _ p.transactions (any_field_answers p.transactions referenced))

  -- Under the same conditions, a word that the parser takes for a single term finds the same as the
  -- search without the parser.
  pub fallback_search_agrees :
      tree ≡ single_word query → search run parse query p ≡ fallback_search run query p
  fallback_search_agrees single =
      search_consistent
      ∙ ap
          (λ tr.
            ok (
              keep (λ t. holds_query (field_tests run (lists_of p categories)) t tr)
                p.transactions))
          single
      ∙ sym fallback_search_consistent
