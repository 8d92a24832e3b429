-- ===== src/Model/BankAccount.antt =====
-- frontend/lib/model/BankAccount.tsx: banks, their accounts and the unit of an account. The page
-- URLs are not modelled.
pub mod Grouping
pub mod Groups
pub mod Tests
use prosper.Prelude.{
  ℕ, String, Bool, false, ◌&&◌, not, Option, none, some, List, [], ◌∷◌, ◌++◌, ◌==◌, nat_eq,
  string_eq, if◌then◌else◌, present_text, find, keep, Result, ok, err, or_throw, ◌>>=◌,
  bank_not_found, account_not_found, stock_not_found, no_unit, no_accounts,
}
use prosper.Prelude.Int.{ℤ}
use prosper.Model.Ledger.{PbBank, PbBankAccount}
use prosper.Model.Currency.{must_find_by_code}
use prosper.Model.Stock.{Stock, StockKey, stock_keys_equal}
use prosper.Model.Unit.{MoneyUnit, stock, currency}

pub record Bank : Type 0 where
  pub id : ℕ
  pub name : String
  pub display_order : ℤ

pub record BankAccount : Type 0 where
  pub id : ℕ
  pub name : String
  pub bank_id : ℕ
  pub initial_balance_nanos : ℤ
  pub currency_code : Option String
  pub stock : Option StockKey
  pub display_order : ℤ
  pub archived : Bool
  pub joint : Bool

unfoldable pub bank_model_from_db : PbBank → Bank
bank_model_from_db init = record {
  id = init.id;
  name = init.name;
  display_order = init.display_order;
}

unfoldable pub bank_account_model_from_db : PbBankAccount → BankAccount
bank_account_model_from_db init = record {
  id = init.id;
  name = init.name;
  bank_id = init.bank_id;
  initial_balance_nanos = init.initial_balance_nanos;
  currency_code = init.currency_code;
  stock = init.stock;
  display_order = init.display_order;
  archived = init.archived;
  joint = init.joint;
}

unfoldable pub accounts_for_bank : Bank → List BankAccount → List BankAccount
unfolding keep
accounts_for_bank bank accounts = keep (λ (a : BankAccount). a.bank_id == bank.id) accounts

has_key : StockKey → Stock → Bool
has_key key s = s.exchange == key.exchange && s.ticker == key.ticker

-- The second half of `accountUnit`, where the account has no currency.
stock_unit : Option StockKey → List Stock → Result MoneyUnit
unfolding find has_key
stock_unit none stocks = err no_unit
stock_unit (some key) stocks = do
  s ← or_throw (find (has_key key) stocks) stock_not_found
  ok (stock s)

unfoldable pub account_unit : BankAccount → List Stock → Result MoneyUnit
unfolding stock_unit must_find_by_code
account_unit account stocks = elim (present_text account.currency_code) [
  | some code ↦ (do c ← must_find_by_code code; ok (currency c))
  | none ↦ stock_unit account.stock stocks
]

unfoldable pub account_bank : BankAccount → List Bank → Result Bank
unfolding find
account_bank account banks =
    or_throw (find (λ (b : Bank). b.id == account.bank_id) banks) bank_not_found

pub record BankGroup : Type 0 where
  pub bank : Bank
  pub accounts : List BankAccount

-- `groups.find(g => g.bank.id == bank.id)`, and what the loop does with a group that is found or
-- with none.
unfoldable pub add_to_group : Bank → BankAccount → List BankGroup → List BankGroup
add_to_group bank account [] = record { bank = bank; accounts = account ∷ [] } ∷ []
add_to_group bank account (g ∷ groups) =
    if g.bank.id == bank.id
    then record g { accounts = g.accounts ++ account ∷ [] } ∷ groups
    else g ∷ add_to_group bank account groups

unfoldable pub group_from : List Bank → List BankGroup → List BankAccount → Result (List BankGroup)
group_from banks groups [] = ok groups
group_from banks groups (account ∷ accounts) = do
  bank ← account_bank account banks
  group_from banks (add_to_group bank account groups) accounts

unfoldable pub group_accounts_by_bank : List BankAccount → List Bank → Result (List BankGroup)
unfolding group_from add_to_group account_bank
group_accounts_by_bank accounts banks = group_from banks [] accounts

unfoldable pub must_find_bank_account : List BankAccount → ℕ → Result BankAccount
unfolding find
must_find_bank_account accounts id =
    or_throw (find (λ (a : BankAccount). a.id == id) accounts) account_not_found

unfoldable pub first_visible_account_id : List BankAccount → Result ℕ
unfolding find
first_visible_account_id [] = err no_accounts
first_visible_account_id (a ∷ accounts) =
    elim (find (λ (a : BankAccount). not a.archived) (a ∷ accounts)) [
      | some b ↦ ok b.id
      | none ↦ ok a.id
    ]

-- The second `if` of `accountUnitsEqual`.
stocks_equal : Option StockKey → Option StockKey → Bool
unfolding stock_keys_equal
stocks_equal (some a) (some b) = stock_keys_equal a b
stocks_equal _ _ = false

codes_or_stocks_equal : BankAccount → BankAccount → Option String → Option String → Bool
unfolding stocks_equal
codes_or_stocks_equal a b (some c) (some d) = c == d
codes_or_stocks_equal a b (some c) none = stocks_equal a.stock b.stock
codes_or_stocks_equal a b none d = stocks_equal a.stock b.stock

unfoldable pub account_units_equal : BankAccount → BankAccount → Bool
unfolding codes_or_stocks_equal
account_units_equal a b =
    codes_or_stocks_equal a b (present_text a.currency_code) (present_text b.currency_code)
