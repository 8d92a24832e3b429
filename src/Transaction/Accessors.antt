-- ===== src/Transaction/Accessors.antt =====
-- The functions of frontend/lib/model/transaction/Transaction.tsx and Transfer.tsx that look up
-- what a transaction refers to. `transactionBankAccount` takes three kinds of transactions and
-- reads only the account's id of them, so it takes the id here.
use prosper.Prelude.{
  ℕ, String, Bool, true, false, Option, none, some, List, [], ◌∷◌, ◌==◌, nat_eq, present, find,
  Result, ok, err, or_throw, ◌>>=◌, map_result, account_not_found, no_category, category_not_found,
}
use prosper.Prelude.Int.{ℤ}
use prosper.Model.Currency.{must_find_by_code}
use prosper.Model.Stock.{Stock}
use prosper.Model.Unit.{MoneyUnit, currency}
use prosper.Model.BankAccount.{
  Bank, BankAccount, account_bank, account_unit, must_find_bank_account,
}
use prosper.Model.Tag.{Tag, Trip, must_find_tag}
use prosper.Category.{Category}
use prosper.Money.Unit.{AmountWithUnit}
use prosper.Transaction.{
  Transaction, TransactionCompanion, Transfer, OpeningBalance, ExpenseOrIncome, personal,
  third_party, of_expense, of_income, personal_expense, third_party_expense, transfer, income,
  opening_balance,
}

unfoldable pub transaction_bank_account : ℕ → List BankAccount → Result BankAccount
unfolding find
transaction_bank_account account_id bank_accounts =
    or_throw (find (λ (a : BankAccount). a.id == account_id) bank_accounts) account_not_found

unfoldable pub transaction_bank : ℕ → List Bank → List BankAccount → Result Bank
unfolding transaction_bank_account account_bank
transaction_bank account_id banks bank_accounts = do
  account ← transaction_bank_account account_id bank_accounts
  account_bank account banks

-- The unit of an account that is found by its id.
unfoldable pub unit_of_account : ℕ → List BankAccount → List Stock → Result MoneyUnit
unfolding transaction_bank_account account_unit
unit_of_account account_id bank_accounts stocks = do
  account ← transaction_bank_account account_id bank_accounts
  account_unit account stocks

unfoldable pub transaction_unit : ExpenseOrIncome → List BankAccount → List Stock → Result MoneyUnit
unfolding unit_of_account must_find_by_code
transaction_unit (of_expense (personal t)) bank_accounts stocks =
    unit_of_account t.account_id bank_accounts stocks
transaction_unit (of_income t) bank_accounts stocks =
    unit_of_account t.account_id bank_accounts stocks
transaction_unit (of_expense (third_party t)) bank_accounts stocks = do
  c ← must_find_by_code t.currency_code
  ok (currency c)

abbrev pub tags_ids_of : Transaction → List ℕ
tags_ids_of (personal_expense t) = t.tags_ids
tags_ids_of (third_party_expense t) = t.tags_ids
tags_ids_of (transfer t) = t.tags_ids
tags_ids_of (income t) = t.tags_ids
tags_ids_of (opening_balance t) = []

-- No tag that is found is empty, so the filter after the lookup drops none.
unfoldable pub transaction_tags : Transaction → List Tag → Result (List Tag)
unfolding map_result must_find_tag
transaction_tags t all_tags = map_result (λ id. must_find_tag id all_tags) (tags_ids_of t)

abbrev pub trip_id_of : ExpenseOrIncome → Option ℕ
trip_id_of (of_expense (personal t)) = t.trip_id
trip_id_of (of_expense (third_party t)) = t.trip_id
trip_id_of (of_income t) = t.trip_id

unfoldable pub transaction_trip : ExpenseOrIncome → List Trip → Option Trip
unfolding find
transaction_trip t all_trips = elim (trip_id_of t) [
  | none ↦ none
  | some id ↦ find (λ (trip : Trip). trip.id == id) all_trips
]

unfoldable pub has_trip : Transaction → Bool
has_trip (personal_expense t) = elim (present t.trip_id) [ none ↦ false | some _ ↦ true ]
has_trip (third_party_expense t) = elim (present t.trip_id) [ none ↦ false | some _ ↦ true ]
has_trip (income t) = elim (present t.trip_id) [ none ↦ false | some _ ↦ true ]
has_trip (transfer _) = false
has_trip (opening_balance _) = false

abbrev pub companions_in : ExpenseOrIncome → List TransactionCompanion
companions_in (of_expense (personal t)) = t.companions
companions_in (of_expense (third_party t)) = t.companions
companions_in (of_income t) = t.companions

-- `companions[0].name`, if there is one.
abbrev first_name : List TransactionCompanion → Option String
first_name [] = none
first_name (c ∷ _) = some c.name

unfoldable pub other_party_name : ExpenseOrIncome → Option String
other_party_name t = first_name (companions_in t)

unfoldable pub other_party_name_or_null : Transaction → Option String
unfolding other_party_name
other_party_name_or_null (personal_expense t) = other_party_name (of_expense (personal t))
other_party_name_or_null (third_party_expense t) = other_party_name (of_expense (third_party t))
other_party_name_or_null (income t) = other_party_name (of_income t)
other_party_name_or_null _ = none

-- `allCategories.find(c => c.id == id)`
find_category : ℕ → List Category → Result Category
unfolding find
find_category id all = or_throw (find (λ (c : Category). c.id == id) all) category_not_found

unfoldable pub transaction_category : Transaction → List Category → Result Category
unfolding find_category
transaction_category (opening_balance t) all = err no_category
transaction_category (personal_expense t) all = find_category t.category_id all
transaction_category (third_party_expense t) all = find_category t.category_id all
transaction_category (transfer t) all = find_category t.category_id all
transaction_category (income t) all = find_category t.category_id all

unfoldable pub outgoing_bank_account : Transfer → List BankAccount → Result BankAccount
unfolding find
outgoing_bank_account t bank_accounts =
    or_throw (find (λ (a : BankAccount). a.id == t.from_account_id) bank_accounts) account_not_found

unfoldable pub incoming_bank_account : Transfer → List BankAccount → Result BankAccount
unfolding find
incoming_bank_account t bank_accounts =
    or_throw (find (λ (a : BankAccount). a.id == t.to_account_id) bank_accounts) account_not_found

unfoldable pub outgoing_bank : Transfer → List Bank → List BankAccount → Result Bank
unfolding outgoing_bank_account account_bank
outgoing_bank t banks bank_accounts = do
  account ← outgoing_bank_account t bank_accounts
  account_bank account banks

unfoldable pub incoming_bank : Transfer → List Bank → List BankAccount → Result Bank
unfolding incoming_bank_account account_bank
incoming_bank t banks bank_accounts = do
  account ← incoming_bank_account t bank_accounts
  account_bank account banks

abbrev pub with_unit : ℤ → MoneyUnit → AmountWithUnit
with_unit nanos unit = record { amount = record { amount_nanos = nanos }; unit = unit }

unfoldable pub amount_received : Transfer → List BankAccount → List Stock → Result AmountWithUnit
unfolding incoming_bank_account account_unit
amount_received t bank_accounts stocks = do
  account ← incoming_bank_account t bank_accounts
  unit ← account_unit account stocks
  ok (with_unit t.received_amount_nanos unit)

unfoldable pub amount_sent : Transfer → List BankAccount → List Stock → Result AmountWithUnit
unfolding outgoing_bank_account account_unit
amount_sent t bank_accounts stocks = do
  account ← outgoing_bank_account t bank_accounts
  unit ← account_unit account stocks
  ok (with_unit t.sent_amount_nanos unit)

unfoldable pub opening_balance_amount :
    OpeningBalance → List BankAccount → List Stock → Result AmountWithUnit
unfolding must_find_bank_account account_unit
opening_balance_amount t bank_accounts stocks = do
  account ← must_find_bank_account bank_accounts t.account_id
  unit ← account_unit account stocks
  ok (with_unit t.amount_nanos unit)
