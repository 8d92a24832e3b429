-- ===== src/Form/Values.antt =====
-- frontend/components/txform/defaults.tsx: the values a form opens with, and those it has after
-- its type is changed.
use prosper.Prelude.{
  Option, none, some, List, Result, ok, err, or_throw, ◌>>=◌, missing_form, bad_transition,
}
use prosper.Prelude.Int.{ℤ}
use prosper.Category.{Category}
use prosper.Links.{TransactionLink}
use prosper.Model.BankAccount.{BankAccount}
use prosper.Model.Ledger.Forms.{PbFormType, TransactionDraft}
use prosper.Model.Tag.{Tag, Trip}
use prosper.Transaction.{Expense, Income, Transfer}
use prosper.Form.{FormType, Repayment, TransactionForm, expense_form, income_form, transfer_form}
use prosper.Form.Draft.{draft_form_type}
use prosper.Form.Expense.{
  expense_form_empty, expense_from_draft, income_to_expense, transfer_to_expense,
}
use prosper.Form.Expense.Stored.{expense_from_transaction}
use prosper.Form.Income.{
  income_from_draft, income_from_transaction, expense_to_income, transfer_to_income,
}
use prosper.Form.Transfer.{
  transfer_from_draft, transfer_from_transaction, expense_to_transfer, income_to_transfer,
}

-- `Exclude<Transaction, OpeningBalance>`
pub data Editable : Type 0 where
  an_income : Income → Editable
  a_transfer : Transfer → Editable
  an_expense : Expense → Editable

-- `TransactionFormSchema`
abbrev pub Values : Type 0
Values = TransactionForm Repayment

unfoldable pub values_for_transaction :
    Editable → List TransactionLink → List Tag → List Trip → Result Values
unfolding income_from_transaction transfer_from_transaction expense_from_transaction
values_for_transaction (an_income t) links tags trips = do
  i ← income_from_transaction t tags links
  ok (income_form i)
values_for_transaction (a_transfer t) links tags trips = do
  t' ← transfer_from_transaction t tags
  ok (transfer_form t')
values_for_transaction (an_expense t) links tags trips = do
  e ← expense_from_transaction t tags trips links
  ok (expense_form e)

-- `useFormDefaults`, with what it reads from the contexts. `today` is `startOfDay(new Date())`.
unfoldable pub form_defaults :
    ℤ
    → Option Editable
    → List TransactionLink
    → List Category
    → List BankAccount
    → List Tag
    → List Trip
    → Result Values
unfolding expense_form_empty values_for_transaction
form_defaults today none links categories bank_accounts tags trips = do
  e ← expense_form_empty today categories bank_accounts
  ok (expense_form e)
form_defaults today (some t) links categories bank_accounts tags trips =
    values_for_transaction t links tags trips

-- The `switch` on the type that the draft opens with.
unfoldable pub values_by_type :
    PbFormType → ℤ → TransactionDraft → List Category → List BankAccount → Result Values
unfolding income_from_draft transfer_from_draft expense_from_draft
values_by_type PbFormType.income today draft categories bank_accounts = do
  i ← income_from_draft today draft categories bank_accounts
  ok (income_form i)
values_by_type PbFormType.transfer today draft categories bank_accounts = do
  t ← transfer_from_draft today draft categories bank_accounts
  ok (transfer_form t)
values_by_type _ today draft categories bank_accounts = do
  e ← expense_from_draft today draft categories bank_accounts
  ok (expense_form e)

unfoldable pub values_for_draft :
    ℤ → TransactionDraft → List Category → List BankAccount → Result Values
unfolding draft_form_type values_by_type
values_for_draft today draft categories bank_accounts =
    values_by_type (draft_form_type draft) today draft categories bank_accounts

-- The tests on the two types, which exclude each other. The last clause is for the same type, where
-- the form is returned as it is.
switch_type :
    {R : Type 0}
    → FormType
    → FormType
    → TransactionForm R
    → List BankAccount
    → Result (TransactionForm R)
unfolding expense_to_income expense_to_transfer income_to_expense income_to_transfer
    transfer_to_expense transfer_to_income
switch_type FormType.expense FormType.income prev bank_accounts = do
  e ← or_throw prev.expense missing_form
  i ← expense_to_income e bank_accounts
  ok (income_form i)
switch_type FormType.expense FormType.transfer prev bank_accounts = do
  e ← or_throw prev.expense missing_form
  t ← expense_to_transfer e bank_accounts
  ok (transfer_form t)
switch_type FormType.income FormType.expense prev bank_accounts = do
  i ← or_throw prev.income missing_form
  ok (expense_form (income_to_expense i))
switch_type FormType.income FormType.transfer prev bank_accounts = do
  i ← or_throw prev.income missing_form
  ok (transfer_form (income_to_transfer i))
switch_type FormType.transfer FormType.expense prev bank_accounts = do
  t ← or_throw prev.transfer missing_form
  ok (expense_form (transfer_to_expense t))
switch_type FormType.transfer FormType.income prev bank_accounts = do
  t ← or_throw prev.transfer missing_form
  ok (income_form (transfer_to_income t))
switch_type _ _ prev bank_accounts = ok prev

unfoldable pub values_for_new_type :
    {R : Type 0}
    → TransactionForm R
    → Option FormType
    → List BankAccount
    → Result (TransactionForm R)
unfolding switch_type
values_for_new_type prev none bank_accounts = err bad_transition
values_for_new_type prev (some next) bank_accounts =
    switch_type prev.form_type next prev bank_accounts
