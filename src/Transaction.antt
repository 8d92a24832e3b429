-- ===== src/Transaction.antt =====
-- frontend/lib/model/transaction: the five kinds of transactions of the client.
pub mod FromDb
pub mod Accessors
pub mod Amounts
use prosper.Prelude.{ℕ, String, Bool, true, false, ◌||◌, Option, none, some, List}
use prosper.Prelude.Int.{ℤ}

pub record TransactionCompanion : Type 0 where
  pub name : String
  pub amount_nanos : ℤ

pub record Income : Type 0 where
  pub id : ℕ
  pub timestamp_epoch : ℤ
  pub payer : String
  pub amount_nanos : ℤ
  pub companions : List TransactionCompanion
  pub note : String
  pub account_id : ℕ
  pub category_id : ℕ
  pub tags_ids : List ℕ
  pub trip_id : Option ℕ

pub record PersonalExpense : Type 0 where
  pub id : ℕ
  pub timestamp_epoch : ℤ
  pub vendor : String
  pub amount_nanos : ℤ
  pub companions : List TransactionCompanion
  pub note : String
  pub account_id : ℕ
  pub category_id : ℕ
  pub tags_ids : List ℕ
  pub trip_id : Option ℕ
  pub refund_group_transaction_ids : List ℕ

pub record ThirdPartyExpense : Type 0 where
  pub id : ℕ
  pub timestamp_epoch : ℤ
  pub payer : String
  pub vendor : String
  pub amount_nanos : ℤ
  pub currency_code : String
  pub own_share_nanos : ℤ
  pub companions : List TransactionCompanion
  pub note : String
  pub category_id : ℕ
  pub tags_ids : List ℕ
  pub trip_id : Option ℕ

pub record Transfer : Type 0 where
  pub id : ℕ
  pub timestamp_epoch : ℤ
  pub from_account_id : ℕ
  pub to_account_id : ℕ
  pub sent_amount_nanos : ℤ
  pub received_amount_nanos : ℤ
  pub note : String
  pub category_id : ℕ
  pub tags_ids : List ℕ

pub record OpeningBalance : Type 0 where
  pub id : ℕ
  pub timestamp_epoch : ℤ
  pub amount_nanos : ℤ
  pub account_id : ℕ

pub data Transaction : Type 0 where
  personal_expense : PersonalExpense → Transaction
  third_party_expense : ThirdPartyExpense → Transaction
  transfer : Transfer → Transaction
  income : Income → Transaction
  opening_balance : OpeningBalance → Transaction

pub data Expense : Type 0 where
  personal : PersonalExpense → Expense
  third_party : ThirdPartyExpense → Expense

-- `PersonalExpense | ThirdPartyExpense | Income`
pub data ExpenseOrIncome : Type 0 where
  of_expense : Expense → ExpenseOrIncome
  of_income : Income → ExpenseOrIncome

unfoldable pub is_personal_expense : Transaction → Bool
is_personal_expense (personal_expense _) = true
is_personal_expense _ = false

unfoldable pub is_third_party_expense : Transaction → Bool
is_third_party_expense (third_party_expense _) = true
is_third_party_expense _ = false

unfoldable pub is_expense : Transaction → Bool
unfolding is_personal_expense is_third_party_expense
is_expense t = is_personal_expense t || is_third_party_expense t

unfoldable pub is_transfer : Transaction → Bool
is_transfer (transfer _) = true
is_transfer _ = false

unfoldable pub is_income : Transaction → Bool
is_income (income _) = true
is_income _ = false

unfoldable pub is_opening_balance : Transaction → Bool
is_opening_balance (opening_balance _) = true
is_opening_balance _ = false

-- The fields that every kind has.
abbrev pub id_of : Transaction → ℕ
id_of (personal_expense t) = t.id
id_of (third_party_expense t) = t.id
id_of (transfer t) = t.id
id_of (income t) = t.id
id_of (opening_balance t) = t.id

abbrev pub epoch_of : Transaction → ℤ
epoch_of (personal_expense t) = t.timestamp_epoch
epoch_of (third_party_expense t) = t.timestamp_epoch
epoch_of (transfer t) = t.timestamp_epoch
epoch_of (income t) = t.timestamp_epoch
epoch_of (opening_balance t) = t.timestamp_epoch
