-- ===== src/Search/Match.antt =====
-- frontend/lib/search/matchers.tsx: the tests of a search on one transaction.
--
-- Here are the tests that compare numbers and ids, which are matched by their decimal digits; those
-- that look for a text are in the module Fields.
pub mod Fields
pub mod Choice
pub mod Returns
pub mod Total
pub mod Consistent
pub mod Tests
use prosper.Prelude.{
  ℕ, String, Bool, true, false, not, ◌&&◌, ◌||◌, Option, none, some, List, [], ◌∷◌, map, ◌==◌,
  if◌then◌else◌, present, any, nat_eq, Result, ok, err, ◌>>=◌, endless_walk,
}
use prosper.Prelude.Int.{ℤ, ltb_ℤ, leb_ℤ, int_beq, int_eq, pos}
use prosper.Prelude.Text.{codes, same_codes, to_decimal, is_digit}
use prosper.Util.Numbers.{parse_amount_as_nanos}
use prosper.Model.BankAccount.{BankAccount}
use prosper.Transaction.{
  Transaction, personal, third_party, of_expense, of_income, personal_expense, third_party_expense,
  transfer, income, opening_balance, id_of, ExpenseOrIncome,
}
use prosper.Transaction.Accessors.{
  transaction_bank_account, tags_ids_of, trip_id_of, outgoing_bank_account, incoming_bank_account,
}
use prosper.Search.{
  ComparisonOperator, less_than, less_than_or_equal, greater_than, greater_than_or_equal,
}

-- `a || b` where either side may throw: the second is not asked if the first holds.
infixr 30 ◌or_else◌
abbrev pub ◌or_else◌ : Result Bool → Result Bool → Result Bool
first or_else second = first >>= λ holds. if holds then ok true else second

-- `equals`: an id that is written as in the term.
unfoldable pub equals : ℕ → String → Bool
unfolding same_codes to_decimal
equals id term = same_codes (to_decimal id) (codes term)

-- `/^\d{4}-\d{2}-\d{2}$/`
unfoldable pub is_day_text : List ℕ → Bool
unfolding is_digit
is_day_text (y ∷ y₁ ∷ y₂ ∷ y₃ ∷ d ∷ m ∷ m₁ ∷ e ∷ n ∷ n₁ ∷ []) =
    is_digit y
    && is_digit y₁
    && is_digit y₂
    && is_digit y₃
    && d == b'-'
    && is_digit m
    && is_digit m₁
    && e == b'-'
    && is_digit n
    && is_digit n₁
is_day_text _ = false

-- `termNanos`, and `!termNanos` where it is missing or 0.
unfoldable pub term_nanos : String → Option ℤ
unfolding parse_amount_as_nanos
term_nanos term = elim (parse_amount_as_nanos (codes term)) [
  | none ↦ none
  | some n ↦ (if int_beq n (pos 0) then none else some n)
]

-- The amounts that are matched: both of a transfer.
unfoldable pub amounts_of : Transaction → List ℤ
amounts_of (personal_expense t) = t.amount_nanos ∷ []
amounts_of (third_party_expense t) = t.amount_nanos ∷ []
amounts_of (transfer t) = t.sent_amount_nanos ∷ t.received_amount_nanos ∷ []
amounts_of (income t) = t.amount_nanos ∷ []
amounts_of (opening_balance t) = t.amount_nanos ∷ []

unfoldable pub match_amount : Transaction → String → Bool
unfolding term_nanos amounts_of any
match_amount t term = elim (term_nanos term) [
  | none ↦ false
  | some nanos ↦ any (λ a. int_beq a nanos) (amounts_of t)
]

unfoldable pub compare : ComparisonOperator → ℤ → ℤ → Bool
compare less_than a b = ltb_ℤ a b
compare less_than_or_equal a b = leb_ℤ a b
compare greater_than a b = ltb_ℤ b a
compare greater_than_or_equal a b = leb_ℤ b a

unfoldable pub compare_amount : Transaction → String → ComparisonOperator → Bool
unfolding term_nanos amounts_of any compare
compare_amount t term op = elim (term_nanos term) [
  | none ↦ false
  | some nanos ↦ any (λ a. compare op a nanos) (amounts_of t)
]

unfoldable pub match_transaction_id : Transaction → String → Bool
unfolding equals
match_transaction_id t term = equals (id_of t) term

unfoldable pub match_bank_id : Transaction → String → List BankAccount → Result Bool
unfolding equals outgoing_bank_account incoming_bank_account transaction_bank_account
match_bank_id (third_party_expense t) term accounts = ok false
match_bank_id (transfer t) term accounts = do
  account_from ← outgoing_bank_account t accounts
  account_to ← incoming_bank_account t accounts
  ok (equals account_from.bank_id term || equals account_to.bank_id term)
match_bank_id (personal_expense t) term accounts = do
  account ← transaction_bank_account t.account_id accounts
  ok (equals account.bank_id term)
match_bank_id (income t) term accounts = do
  account ← transaction_bank_account t.account_id accounts
  ok (equals account.bank_id term)
match_bank_id (opening_balance t) term accounts = do
  account ← transaction_bank_account t.account_id accounts
  ok (equals account.bank_id term)

unfoldable pub match_bank_account_id : Transaction → String → Bool
unfolding equals
match_bank_account_id (third_party_expense t) term = false
match_bank_account_id (transfer t) term =
    equals t.from_account_id term || equals t.to_account_id term
match_bank_account_id (personal_expense t) term = equals t.account_id term
match_bank_account_id (income t) term = equals t.account_id term
match_bank_account_id (opening_balance t) term = equals t.account_id term

-- The category of a transaction, but for an opening balance.
abbrev pub category_id_of : Transaction → Option ℕ
category_id_of (personal_expense t) = some t.category_id
category_id_of (third_party_expense t) = some t.category_id
category_id_of (transfer t) = some t.category_id
category_id_of (income t) = some t.category_id
category_id_of (opening_balance t) = none

unfoldable pub match_category_id : Transaction → String → Bool
unfolding equals
match_category_id t term = elim (category_id_of t) [ none ↦ false | some id ↦ equals id term ]

-- The expenses and the incomes.
abbrev pub expense_or_income : Transaction → Option ExpenseOrIncome
expense_or_income (personal_expense t) = some (of_expense (personal t))
expense_or_income (third_party_expense t) = some (of_expense (third_party t))
expense_or_income (income t) = some (of_income t)
expense_or_income (transfer _) = none
expense_or_income (opening_balance _) = none

-- The trip's id, where the transaction has one other than 0.
abbrev pub trip_of : Transaction → Option ℕ
trip_of t = elim (expense_or_income t) [ none ↦ none | some e ↦ present (trip_id_of e) ]

unfoldable pub match_trip_id : Transaction → String → Bool
unfolding equals
match_trip_id t term = elim (trip_of t) [ none ↦ false | some id ↦ equals id term ]

unfoldable pub match_tag_id : Transaction → String → Bool
unfolding equals any
match_tag_id t term = any (λ id. equals id term) (tags_ids_of t)
