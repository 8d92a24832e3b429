-- ===== src/Search/Tests.antt =====
-- Tests of frontend/lib/search/visitor.tsx, and the theorem at a concrete input.
use prosper.Prelude.{
  ◌≡◌, refl, false, ◌==◌, string_eq, nat_eq, List, [], ◌∷◌, keep, if◌then◌else◌, inl, inr, ok,
}
use prosper.Transaction.{Transaction, personal_expense, income, is_expense, id_of}
use prosper.Links.Tests.{shoes, money_back}
use prosper.Search.{
  Query, Term, last_disj, then_disj, last_conj, or_conj, last_mod, plain, negated, any_field,
  field_match, Matchers, case_insensitive, search_tree,
}
use prosper.Search.Meaning.{Answers, FieldTests, holds_query}
use prosper.Search.Meaning.Visit.{search_tree_finds}

abbrev all : List Transaction
all = personal_expense shoes ∷ income (money_back 3) ∷ income (money_back 5) ∷ []

-- `shoes` is found in expenses only, and a field is found by the id 5 only.
abbrev tests : FieldTests
tests = record {
  any_field_test = λ t term. if term.text == "shoes" then is_expense t else false;
  field_test = λ t name term. id_of t == 5;
  compare_test = λ t name op term. false;
}

abbrev matchers : Matchers
matchers = record {
  match_any_field = λ t term. ok (tests.any_field_test t term);
  match_field = λ t name term. ok (tests.field_test t name term);
  compare_field = λ t name op term. ok (tests.compare_test t name op term);
}

abbrev shoes_term : Term
shoes_term = record { text = "shoes"; case_match = case_insensitive }

-- `NOT shoes`
abbrev not_shoes : Query
not_shoes = last_disj (last_conj (last_mod (negated (any_field shoes_term))))

-- `shoes OR id:5`, which is followed by `NOT shoes`
abbrev two_parts : Query
two_parts =
    then_disj
      (or_conj (last_mod (plain (any_field shoes_term)))
        (last_conj (last_mod (plain (field_match "id" shoes_term)))))
      not_shoes

incomes_found :
    search_tree matchers all not_shoes ≡ ok (income (money_back 3) ∷ income (money_back 5) ∷ [])
unfolding search_tree is_expense
incomes_found = refl

one_found : search_tree matchers all two_parts ≡ ok (income (money_back 5) ∷ [])
unfolding search_tree is_expense
one_found = refl

search_tree_finds_example :
    search_tree matchers all two_parts ≡ ok (keep (λ t. holds_query tests t two_parts) all)
search_tree_finds_example =
    search_tree_finds matchers tests all (answer, (answer, (answer, tt))) two_parts
      (
        inl (refl, refl),
        (inr (refl, inl (refl, refl)), (inr (refl, inr (refl, inl (refl, refl))), tt)),
      )
  where
    answer : {t : Transaction} → Answers matchers tests t
    answer = record {
      on_any_field = λ term. refl;
      on_field = λ name term. refl;
      on_compare = λ name op term. refl;
    }
