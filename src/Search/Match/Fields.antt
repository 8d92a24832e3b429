-- ===== src/Search/Match/Fields.antt =====
-- The tests of frontend/lib/search/matchers.tsx that look for a text or a day.
--
-- `toLowerCase` and the functions of date-fns on days are parameters. The walk up the category tree
-- takes fuel; without enough of it a test ends in the error `endless_walk`.
use prosper.Prelude.{
  ℕ, String, Bool, false, not, ◌&&◌, ◌||◌, Option, none, some, List, [], ◌∷◌, ◌==◌, string_eq,
  if◌then◌else◌, any, Result, ok, err, ◌>>=◌, endless_walk,
}
use prosper.Prelude.Int.{ℤ}
use prosper.Prelude.Text.{codes, text_includes, same_codes}
use prosper.Model.BankAccount.{Bank, BankAccount}
use prosper.Model.Tag.{Tag, Trip}
use prosper.Category.{CategoryTree, get_name_with_ancestors}
use prosper.Transaction.{
  Transaction, personal_expense, third_party_expense, transfer, income, opening_balance,
  is_transfer, is_income, is_expense, is_personal_expense, is_third_party_expense, epoch_of,
}
use prosper.Transaction.Accessors.{
  transaction_bank_account, transaction_bank, transaction_tags, transaction_trip, other_party_name,
  outgoing_bank_account, incoming_bank_account, outgoing_bank, incoming_bank,
}
use prosper.Search.{
  exact, case_insensitive, ComparisonOperator, less_than, less_than_or_equal, greater_than,
  greater_than_or_equal, Term,
}
use prosper.Search.Match.{◌or_else◌, is_day_text, category_id_of, trip_of, expense_or_income}

-- What the language and date-fns give: lower case, the local day of a time, the day that a text
-- names, if it names one, and comparisons with such a day.
pub record Runtime : Type 0 where
  pub lower : String → String
  pub format_day : ℤ → List ℕ
  pub parse_day : String → Option ℤ
  pub is_same_day : ℤ → Option ℤ → Bool
  pub is_before : ℤ → Option ℤ → Bool
  pub is_after : ℤ → Option ℤ → Bool

module _ (run : Runtime) where
  unfoldable pub includes : String → Term → Bool
  unfolding text_includes
  includes field_value term = elim term.case_match [
    | exact ↦ text_includes field_value term.text
    | case_insensitive ↦ text_includes (run.lower field_value) (run.lower term.text)
  ]

  unfoldable pub includes_ignore_case : String → List String → Bool
  unfolding any
  includes_ignore_case field_name options = any (λ o. run.lower o == run.lower field_name) options

  unfoldable pub match_note : Transaction → Term → Bool
  unfolding includes
  match_note (personal_expense t) term = includes t.note term
  match_note (third_party_expense t) term = includes t.note term
  match_note (transfer t) term = includes t.note term
  match_note (income t) term = includes t.note term
  match_note (opening_balance t) term = false

  unfoldable pub match_vendor : Transaction → Term → Bool
  unfolding includes
  match_vendor (personal_expense t) term = includes t.vendor term
  match_vendor (third_party_expense t) term = includes t.vendor term
  match_vendor _ term = false

  unfoldable pub match_payer : Transaction → Term → Bool
  unfolding includes
  match_payer (income t) term = includes t.payer term
  match_payer _ term = false

  -- `!otherParty` holds of the empty name as well.
  unfoldable pub match_other_party : Transaction → Term → Bool
  unfolding includes other_party_name
  match_other_party t term = elim (expense_or_income t) [
    | none ↦ false
    | some e ↦ elim (other_party_name e) [
      | none ↦ false
      | some name ↦ not (name == "") && includes name term
    ]
  ]

  unfoldable pub match_bank : Transaction → Term → List Bank → List BankAccount → Result Bool
  unfolding includes outgoing_bank incoming_bank transaction_bank
  match_bank (third_party_expense t) term banks accounts = ok false
  match_bank (transfer t) term banks accounts =
      (do bank_from ← outgoing_bank t banks accounts; ok (includes bank_from.name term))
      or_else (do bank_to ← incoming_bank t banks accounts; ok (includes bank_to.name term))
  match_bank (personal_expense t) term banks accounts = do
    bank ← transaction_bank t.account_id banks accounts
    ok (includes bank.name term)
  match_bank (income t) term banks accounts = do
    bank ← transaction_bank t.account_id banks accounts
    ok (includes bank.name term)
  match_bank (opening_balance t) term banks accounts = do
    bank ← transaction_bank t.account_id banks accounts
    ok (includes bank.name term)

  unfoldable pub match_bank_account : Transaction → Term → List BankAccount → Result Bool
  unfolding includes outgoing_bank_account incoming_bank_account transaction_bank_account
  match_bank_account (third_party_expense t) term accounts = ok false
  match_bank_account (transfer t) term accounts =
      (do from ← outgoing_bank_account t accounts; ok (includes from.name term))
      or_else (do to ← incoming_bank_account t accounts; ok (includes to.name term))
  match_bank_account (personal_expense t) term accounts = do
    account ← transaction_bank_account t.account_id accounts
    ok (includes account.name term)
  match_bank_account (income t) term accounts = do
    account ← transaction_bank_account t.account_id accounts
    ok (includes account.name term)
  match_bank_account (opening_balance t) term accounts = do
    account ← transaction_bank_account t.account_id accounts
    ok (includes account.name term)

  -- The name of a walk that has ended.
  abbrev walked : Option String → Result String
  walked none = err endless_walk
  walked (some name) = ok name

  unfoldable pub match_category : Transaction → Term → ℕ → CategoryTree → Result Bool
  unfolding includes get_name_with_ancestors
  match_category t term fuel tree = elim (category_id_of t) [
    | none ↦ ok false
    | some id ↦ (do
      found ← get_name_with_ancestors fuel id tree
      name ← walked found
      ok (includes name term))
  ]

  unfoldable pub match_trip : Transaction → Term → List Trip → Bool
  unfolding includes transaction_trip
  match_trip t term trips = elim (trip_of t) [
    | none ↦ false
    | some id ↦ elim (expense_or_income t) [
      | none ↦ false
      | some e ↦ elim (transaction_trip e trips) [
        | none ↦ false
        | some trip ↦ includes trip.name term
      ]
    ]
  ]

  unfoldable pub match_tag : Transaction → Term → List Tag → Result Bool
  unfolding includes transaction_tags any
  match_tag t term all_tags = do
    tags ← transaction_tags t all_tags
    ok (any (λ (tag : Tag). includes tag.name term) tags)

  unfoldable pub match_date : Transaction → String → Bool
  unfolding is_day_text same_codes
  match_date t term =
      is_day_text (codes term) && same_codes (run.format_day (epoch_of t)) (codes term)

  unfoldable pub match_type : Transaction → String → Bool
  unfolding includes_ignore_case is_transfer is_income is_expense is_personal_expense
      is_third_party_expense
  match_type t term =
      if includes_ignore_case term ("transfer" ∷ [])
      then is_transfer t
      else if includes_ignore_case term ("income" ∷ [])
      then is_income t
      else if includes_ignore_case term ("expense" ∷ [])
      then is_expense t
      else if includes_ignore_case term ("personal" ∷ [])
      then is_personal_expense t
      else includes_ignore_case term ("thirdParty" ∷ "external" ∷ []) && is_third_party_expense t

  unfoldable pub compare_date : Transaction → String → ComparisonOperator → Bool
  compare_date t term less_than = run.is_before (epoch_of t) (run.parse_day term)
  compare_date t term less_than_or_equal =
      run.is_same_day (epoch_of t) (run.parse_day term)
      || run.is_before (epoch_of t) (run.parse_day term)
  compare_date t term greater_than =
      not (run.is_same_day (epoch_of t) (run.parse_day term))
      && run.is_after (epoch_of t) (run.parse_day term)
  compare_date t term greater_than_or_equal =
      run.is_same_day (epoch_of t) (run.parse_day term)
      || run.is_after (epoch_of t) (run.parse_day term)
