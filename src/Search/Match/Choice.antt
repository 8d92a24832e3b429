-- ===== src/Search/Match/Choice.antt =====
-- The choice of the tests of frontend/lib/search/matchers.tsx by the name of a field, and the two
-- searches of frontend/lib/search/search.tsx.
use prosper.Prelude.{
  ℕ, String, Bool, false, ◌&&◌, ◌||◌, List, [], ◌∷◌, if◌then◌else◌, Result, ok, ◌>>=◌,
}
use prosper.Prelude.Text.{is_blank}
use prosper.Model.BankAccount.{Bank, BankAccount}
use prosper.Model.Tag.{Tag, Trip}
use prosper.Category.{Category, CategoryTree, make_category_tree}
use prosper.Transaction.{Transaction}
use prosper.Search.{
  ComparisonOperator, case_insensitive, Term, Matchers, Query, search_tree, filter_result,
}
use prosper.Search.Match.{
  ◌or_else◌, match_amount, compare_amount, match_transaction_id, match_bank_id,
  match_bank_account_id, match_category_id, match_trip_id, match_tag_id,
}
use prosper.Search.Match.Fields.{
  Runtime, includes_ignore_case, match_note, match_vendor, match_payer, match_other_party,
  match_bank, match_bank_account, match_category, match_trip, match_tag, match_date, match_type,
  compare_date,
}

-- What the tests read: the lists of the model, and how far a walk up the tree goes.
pub record Lists : Type 0 where
  pub banks : List Bank
  pub bank_accounts : List BankAccount
  pub category_tree : CategoryTree
  pub trips : List Trip
  pub tags : List Tag
  pub fuel : ℕ

module _ (run : Runtime) where
  unfoldable pub match_any_field : Lists → Transaction → Term → Result Bool
  unfolding match_note match_vendor match_payer match_other_party match_amount match_transaction_id
      match_bank match_bank_account match_category match_trip match_tag match_date match_type
  match_any_field m t term =
      ok (
        match_note run t term
        || match_vendor run t term
        || match_payer run t term
        || match_other_party run t term
        || match_amount t term.text
        || match_transaction_id t term.text)
      or_else match_bank run t term m.banks m.bank_accounts
      or_else match_bank_account run t term m.bank_accounts
      or_else match_category run t term m.fuel m.category_tree
      or_else ok (match_trip run t term m.trips)
      or_else match_tag run t term m.tags
      or_else ok (match_date run t term.text || match_type run t term.text)

  -- A row of `if (includesIgnoreCase(fieldName, options)) return result`, and `return false`.
  unfoldable pub choose : String → List (List String × Result Bool) → Result Bool
  unfolding includes_ignore_case
  choose name [] = ok false
  choose name ((options, result) ∷ rest) =
      let later = choose name rest in
      if includes_ignore_case run name options then result else later

  -- The names of each field, with the test on it.
  unfoldable pub field_rows : Lists → Transaction → Term → List (List String × Result Bool)
  unfolding match_note match_vendor match_payer match_other_party match_amount match_transaction_id
      match_bank_id match_bank match_bank_account_id match_bank_account match_category_id
      match_category match_trip_id match_trip match_tag_id match_tag match_date match_type
  field_rows m t term =
      ("note" ∷ "description" ∷ "d" ∷ [], ok (match_note run t term))
      ∷ ("vendor" ∷ "payee" ∷ "recipient" ∷ "v" ∷ [], ok (match_vendor run t term))
      ∷ ("payer" ∷ [], ok (match_payer run t term))
      ∷ ("otherParty" ∷ "splitWith" ∷ [], ok (match_other_party run t term))
      ∷ ("amount" ∷ "amt" ∷ "price" ∷ [], ok (match_amount t term.text))
      ∷ ("id" ∷ [], ok (match_transaction_id t term.text))
      ∷ (
        "bank" ∷ "b" ∷ [],
        match_bank_id t term.text m.bank_accounts
            or_else match_bank run t term m.banks m.bank_accounts,
      )
      ∷ (
        "account" ∷ "acc" ∷ [],
        ok (match_bank_account_id t term.text)
            or_else match_bank_account run t term m.bank_accounts,
      )
      ∷ (
        "category" ∷ "c" ∷ [],
        ok (match_category_id t term.text) or_else match_category run t term m.fuel m.category_tree,
      )
      ∷ ("trip" ∷ [], ok (match_trip_id t term.text || match_trip run t term m.trips))
      ∷ ("tag" ∷ [], ok (match_tag_id t term.text) or_else match_tag run t term m.tags)
      ∷ ("date" ∷ "d" ∷ "on" ∷ [], ok (match_date run t term.text))
      ∷ ("type" ∷ "t" ∷ [], ok (match_type run t term.text))
      ∷ []

  unfoldable pub match_field : Lists → Transaction → String → Term → Result Bool
  unfolding choose field_rows
  match_field m t name term = choose name (field_rows m t term)

  unfoldable pub compare_field : Transaction → String → ComparisonOperator → String → Bool
  unfolding includes_ignore_case compare_amount compare_date
  compare_field t name op term =
      if includes_ignore_case run name ("amount" ∷ "amt" ∷ "price" ∷ [])
      then compare_amount t term op
      else includes_ignore_case run name ("date" ∷ "d" ∷ []) && compare_date run t term op

  -- What the visitor of a query calls.
  unfoldable pub matchers : Lists → Matchers
  unfolding match_any_field match_field compare_field
  matchers m = record {
    match_any_field = match_any_field m;
    match_field = match_field m;
    compare_field = λ t name op term. ok (compare_field t name op term);
  }

-- `SearchParams`, but for the query, and how far a walk up the tree goes.
pub record SearchParams : Type 0 where
  pub transactions : List Transaction
  pub banks : List Bank
  pub bank_accounts : List BankAccount
  pub categories : List Category
  pub trips : List Trip
  pub tags : List Tag
  pub fuel : ℕ

abbrev pub lists_of : SearchParams → CategoryTree → Lists
lists_of p tree = record {
  banks = p.banks;
  bank_accounts = p.bank_accounts;
  category_tree = tree;
  trips = p.trips;
  tags = p.tags;
  fuel = p.fuel;
}

module _ (run : Runtime) (parse : String → Result Query) where
  -- The parser of ANTLR is a parameter, which throws at a syntax error.
  unfoldable pub search : String → SearchParams → Result (List Transaction)
  unfolding is_blank make_category_tree matchers search_tree
  search query p = if is_blank query then ok p.transactions else (do
    tree ← parse query
    category_tree ← make_category_tree p.categories
    search_tree (matchers run (lists_of p category_tree)) p.transactions tree)

module _ (run : Runtime) where
  -- The search without the parser.
  unfoldable pub fallback_search : String → SearchParams → Result (List Transaction)
  unfolding is_blank make_category_tree match_any_field filter_result
  fallback_search query p = if is_blank query then ok p.transactions else (do
    category_tree ← make_category_tree p.categories
    filter_result
        (λ t.
          match_any_field run (lists_of p category_tree) t
            (record { text = query; case_match = case_insensitive }))
        p.transactions)
