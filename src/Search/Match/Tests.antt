-- ===== src/Search/Match/Tests.antt =====
-- Tests of frontend/lib/search/matchers.tsx and search.tsx, and the theorems at concrete inputs.
use prosper.Prelude.{
  ℕ, ◌≡◌, refl, String, true, false, none, some, [], ◌∷◌, ok, err, inl, nat_eq, string_eq, arith,
  zero, suc, ◌<◌, get_elem?, if◌then◌else◌, ◌==◌, bank_not_found,
}
use prosper.Prelude.Int.{pos}
use prosper.Prelude.Text.{codes, is_blank}
use prosper.Model.BankAccount.{Bank, BankAccount, account_bank}
use prosper.Category.{Category, CategoryTree, CategoryTreeNode, make_category_tree, find_node}
use prosper.Category.Walk.{IsRanked}
use prosper.Transaction.{PersonalExpense, personal_expense}
use prosper.Transaction.Accessors.{transaction_bank_account, transaction_tags}
use prosper.Search.{Query, exact, greater_than}
use prosper.Search.Match.Fields.{Runtime}
use prosper.Search.Match.Choice.{
  SearchParams, lists_of, search, fallback_search, match_field, compare_field,
}
use prosper.Search.Match.Total.{IsReferenced}
use prosper.Search.Match.Consistent.{single_word, fallback_search_agrees}

-- Texts are in lower case already, and every day is the first one.
abbrev runtime : Runtime
runtime = record {
  lower = λ s. s;
  format_day = λ t. codes "1970-01-01";
  parse_day = λ s. if s == "1970-01-01" then some (pos 0) else none;
  is_same_day = λ t d. true;
  is_before = λ t d. false;
  is_after = λ t d. false;
}

abbrev lunch : PersonalExpense
lunch = record {
  id = 12;
  timestamp_epoch = pos 0;
  vendor = "cafe";
  amount_nanos = pos 7_500_000_000;
  companions = [];
  note = "lunch with anna";
  account_id = 1;
  category_id = 10;
  tags_ids = [];
  trip_id = none;
  refund_group_transaction_ids = [];
}

abbrev the_bank : Bank
the_bank = record { id = 3; name = "bank"; display_order = pos 0 }

abbrev the_account : BankAccount
the_account = record {
  id = 1;
  name = "current";
  bank_id = 3;
  initial_balance_nanos = pos 0;
  currency_code = some "USD";
  stock = none;
  display_order = pos 0;
  archived = false;
  joint = false;
}

abbrev eating : Category
eating = record { id = 10; name = "food"; display_order = pos 1; parent_category_id = none }

abbrev eating_node : CategoryTreeNode
eating_node = record { category = eating; parent = none; children = [] }

abbrev eating_tree : CategoryTree
eating_tree = record { nodes = eating_node ∷ []; tree = 0 ∷ []; node_lookup = (10, 0) ∷ [] }

abbrev params : SearchParams
params = record {
  transactions = personal_expense lunch ∷ [];
  banks = the_bank ∷ [];
  bank_accounts = the_account ∷ [];
  categories = eating ∷ [];
  trips = [];
  tags = [];
  fuel = 0;
}

abbrev words : String → Query
words = single_word

by_amount :
    match_field runtime
      (lists_of params eating_tree)
      (personal_expense lunch)
      "amt"
      (record { text = "7.5"; case_match = exact })
    ≡ ok true
unfolding match_field
by_amount = refl

by_category :
    match_field runtime
      (lists_of params eating_tree)
      (personal_expense lunch)
      "c"
      (record { text = "foo"; case_match = exact })
    ≡ ok true
unfolding match_field
by_category = refl

-- The name `d` stands for the description, and never for the date.
by_day :
    match_field runtime
      (lists_of params eating_tree)
      (personal_expense lunch)
      "d"
      (record { text = "1970-01-01"; case_match = exact })
    ≡ ok false
unfolding match_field
by_day = refl

more_than : compare_field runtime (personal_expense lunch) "price" greater_than "7,49" ≡ true
unfolding compare_field
more_than = refl

without_bank : fallback_search runtime "anne" (record params { banks = [] }) ≡ err bank_not_found
unfolding fallback_search
without_bank = refl

tree_made : make_category_tree params.categories ≡ ok eating_tree
unfolding make_category_tree
tree_made = refl

-- No node has a parent, so any rank will do.
lone_node : IsRanked (λ _. 0) eating_tree.nodes
lone_node = record { falls = falls }
  where
    falls :
        (i : ℕ) (node : CategoryTreeNode) (p : ℕ)
        → get_elem? eating_tree.nodes i ≡ some node
        → node.parent ≡ some p
        → (above : CategoryTreeNode) × (get_elem? eating_tree.nodes p ≡ some above) × (0 < 0)
    falls zero node p h k = absurd (ground arith)
    falls (suc i) node p h k = cc

lunch-IsReferenced : IsReferenced (lists_of params eating_tree) (λ _. 0) (personal_expense lunch)
unfolding transaction_bank_account account_bank find_node transaction_tags
lunch-IsReferenced = record {
  accounts = ((the_account, the_bank, refl, refl), tt);
  category = (0, eating_node, refl, omega arith);
  tags = ([], refl);
}

wanted_word : is_blank "anna" ≡ false
unfolding is_blank
wanted_word = refl

fallback_search_agrees_example :
    search runtime (λ q. ok (words q)) "anna" params ≡ fallback_search runtime "anna" params
fallback_search_agrees_example =
    fallback_search_agrees runtime (λ q. ok (words q)) "anna" params (words "anna") eating_tree
      (λ _. 0) wanted_word refl tree_made lone_node (lunch-IsReferenced, tt) (inl (refl, refl), tt)
      refl
