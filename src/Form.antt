-- ===== src/Form.antt =====
-- The forms for a transaction, frontend/components/txform: the values of a form, that is the
-- types that its schemas give (types.ts of each directory), and what the variants share.
--
-- An amount in dollars is kept exactly, as a whole number of nanos, where the code has a double:
-- so `nanosToDollar` and `dollarToNanos` change nothing. A `Date` is a whole number of
-- milliseconds, or none when it is invalid.
pub mod Draft
pub mod Expense
pub mod Income
pub mod Transfer
pub mod Values
pub mod Switch
pub mod Validation
pub mod Submit
pub mod Sharing
pub mod Tests
use prosper.Prelude.{
  ℕ, String, Bool, not, Option, none, some, List, [], ◌∷◌, find, Result, ok, err, if◌then◌else◌,
  Error, Result, no_accounts, no_category,
}
use prosper.Prelude.Int.{ℤ, div_trunc}
use prosper.Model.BankAccount.{BankAccount}
use prosper.Model.Ledger.Forms.{SharingType}

-- `z.date().or(z.string())`
pub data FormTime : Type 0 where
  date : Option ℤ → FormTime
  text : String → FormTime

-- `new Date(t.timestampEpoch)`: a `Date` keeps no fraction of a millisecond.
abbrev pub date_of_epoch : ℤ → FormTime
date_of_epoch epoch = date (some (div_trunc epoch 1_000_000))

-- `RepaymentTransactionFormSchema`
pub record Repayment : Type 0 where
  pub timestamp : FormTime
  pub category_id : ℕ
  pub account_id : ℕ

-- The repayment while the form is edited, when a field may not be set yet.
pub record RepaymentFields : Type 0 where
  pub timestamp : Option FormTime
  pub category_id : Option ℕ
  pub account_id : Option ℕ

-- `ExpenseFormSchema`, with `R` for the repayment.
pub record ExpenseForm (R : Type 0) : Type 0 where
  pub timestamp : FormTime
  pub amount : ℤ
  pub own_share_amount : ℤ
  pub account_id : Option ℕ
  pub category_id : ℕ
  pub vendor : String
  pub companion : Option String
  pub payer : Option String
  pub currency : Option String
  pub sharing_type : SharingType
  pub repayment : Option R
  pub tag_names : List String
  pub description : Option String
  pub trip_name : Option String

pub record IncomeForm : Type 0 where
  pub timestamp : FormTime
  pub amount : ℤ
  pub own_share_amount : ℤ
  pub account_id : ℕ
  pub category_id : ℕ
  pub is_shared : Bool
  pub companion : Option String
  pub payer : String
  pub tag_names : List String
  pub description : Option String
  pub parent_transaction_id : Option ℕ

pub record TransferForm : Type 0 where
  pub timestamp : FormTime
  pub amount_sent : ℤ
  pub amount_received : ℤ
  pub from_account_id : ℕ
  pub to_account_id : ℕ
  pub category_id : ℕ
  pub description : Option String
  pub tag_names : List String

pub data FormType : Type 0 where
  expense transfer income : FormType

pub record TransactionForm (R : Type 0) : Type 0 where
  pub form_type : FormType
  pub expense : Option (ExpenseForm R)
  pub income : Option IncomeForm
  pub transfer : Option TransferForm

abbrev pub expense_form : {R : Type 0} → ExpenseForm R → TransactionForm R
expense_form e = record {
  form_type = FormType.expense;
  expense = some e;
  income = none;
  transfer = none;
}

abbrev pub income_form : {R : Type 0} → IncomeForm → TransactionForm R
income_form i = record {
  form_type = FormType.income;
  expense = none;
  income = some i;
  transfer = none;
}

abbrev pub transfer_form : {R : Type 0} → TransferForm → TransactionForm R
transfer_form t = record {
  form_type = FormType.transfer;
  expense = none;
  income = none;
  transfer = some t;
}

-- `x ?? y`
abbrev pub or_default {ℓ} : {A : Type ℓ} → Option A → A → A
or_default none y = y
or_default (some x) y = x
