-- ===== src/Form/Switch.antt =====
-- Changing the type of a form: `valuesForNewType` of frontend/components/txform/defaults.tsx, over
-- any number of changes.
use prosper.Prelude.{
  ◌≡◌, ◌⊎◌, refl, inl, inr, ℕ, String, Option, none, some, List, [], ◌∷◌, ok, Result, ◌>>=◌, ap,
  ◌∙◌,
}
use prosper.Prelude.Int.{ℤ}
use prosper.Model.BankAccount.{BankAccount}
use prosper.Form.{
  FormTime, FormType, TransactionForm, ExpenseForm, IncomeForm, TransferForm, or_default,
}
use prosper.Form.Expense.{income_to_expense, transfer_to_expense}
use prosper.Form.Income.{expense_to_income, transfer_to_income}
use prosper.Form.Transfer.{expense_to_transfer, income_to_transfer}
use prosper.Form.Values.{values_for_new_type}

-- What each variant says, under its own names.
pub record Core : Type 0 where
  pub time : FormTime
  pub amount : ℤ
  pub category_id : ℕ
  pub name : String
  pub account_id : Option ℕ

abbrev expense_core : {R : Type 0} → Option (ExpenseForm R) → Option Core
expense_core none = none
expense_core (some e) = some (record {
  time = e.timestamp;
  amount = e.amount;
  category_id = e.category_id;
  name = e.vendor;
  account_id = e.account_id;
})

abbrev income_core : Option IncomeForm → Option Core
income_core none = none
income_core (some i) = some (record {
  time = i.timestamp;
  amount = i.amount;
  category_id = i.category_id;
  name = i.payer;
  account_id = some i.account_id;
})

abbrev transfer_core : Option TransferForm → Option Core
transfer_core none = none
transfer_core (some t) = some (record {
  time = t.timestamp;
  amount = t.amount_sent;
  category_id = t.category_id;
  name = or_default t.description "";
  account_id = some t.from_account_id;
})

abbrev variant_core :
    {R : Type 0}
    → FormType
    → Option (ExpenseForm R)
    → Option IncomeForm
    → Option TransferForm
    → Option Core
variant_core FormType.expense e i t = expense_core e
variant_core FormType.income e i t = income_core i
variant_core FormType.transfer e i t = transfer_core t

abbrev pub core_of : {R : Type 0} → TransactionForm R → Option Core
core_of form = variant_core form.form_type form.expense form.income form.transfer

-- The same, with the first account when there was none.
abbrev pub filled : BankAccount → Core → Core
filled a core = record core { account_id = some (or_default core.account_id a.id) }

abbrev fill : BankAccount → Option Core → Option Core
fill a none = none
fill a (some core) = some (filled a core)

unfoldable pub switch_each :
    {R : Type 0} → TransactionForm R → List FormType → List BankAccount → Result (TransactionForm R)
unfolding values_for_new_type
switch_each form [] accounts = ok form
switch_each form (next ∷ rest) accounts = do
  form' ← values_for_new_type form (some next) accounts
  switch_each form' rest accounts

abbrev pub last_of : FormType → List FormType → FormType
last_of t [] = t
last_of t (next ∷ rest) = last_of next rest

module _ {R : Type 0} (a : BankAccount) (accounts : List BankAccount) where
  abbrev Same : Core → TransactionForm R → Type 0
  Same core w = (core_of w ≡ some core) ⊎ (core_of w ≡ some (filled a core))

  one_switch :
      (prev : FormType) (next : FormType) (e : Option (ExpenseForm R)) (i : Option IncomeForm)
      (t : Option TransferForm) (core : Core)
      → variant_core prev e i t ≡ some core
      → (w : TransactionForm R) × (values_for_new_type
            (record { form_type = prev; expense = e; income = i; transfer = t })
            (some next)
            (a ∷ accounts)
          ≡ ok w)
        × (w.form_type ≡ next)
        × Same core w
  unfolding values_for_new_type expense_to_income expense_to_transfer income_to_expense
      income_to_transfer transfer_to_expense transfer_to_income
  one_switch FormType.expense FormType.expense e i t core h = (_, refl, refl, inl h)
  one_switch FormType.income FormType.income e i t core h = (_, refl, refl, inl h)
  one_switch FormType.transfer FormType.transfer e i t core h = (_, refl, refl, inl h)
  one_switch FormType.expense FormType.income none i t core h = cc
  one_switch FormType.expense FormType.income (some e) i t core h =
      (_, refl, refl, inr (ap (fill a) h))
  one_switch FormType.expense FormType.transfer none i t core h = cc
  one_switch FormType.expense FormType.transfer (some e) i t core h =
      (_, refl, refl, inr (ap (fill a) h))
  one_switch FormType.income FormType.expense e none t core h = cc
  one_switch FormType.income FormType.expense e (some i) t core h = (_, refl, refl, inl h)
  one_switch FormType.income FormType.transfer e none t core h = cc
  one_switch FormType.income FormType.transfer e (some i) t core h = (_, refl, refl, inl h)
  one_switch FormType.transfer FormType.expense e i none core h = cc
  one_switch FormType.transfer FormType.expense e i (some t) core h = (_, refl, refl, inl h)
  one_switch FormType.transfer FormType.income e i none core h = cc
  one_switch FormType.transfer FormType.income e i (some t) core h = (_, refl, refl, inl h)

  -- However often the type of a form is changed, the form ends in the last type that was chosen,
  -- with the same time, amount, category and name as at first, and the same account, or the first
  -- one if there was none.
  pub switch_each_keeps :
      (form : TransactionForm R) (nexts : List FormType) (core : Core)
      → core_of form ≡ some core
      → (w : TransactionForm R) × (switch_each form nexts (a ∷ accounts) ≡ ok w)
        × (w.form_type ≡ last_of form.form_type nexts)
        × Same core w
  unfolding switch_each
  switch_each_keeps form [] core h = (form, refl, refl, inl h)
  switch_each_keeps form (next ∷ rest) core h =
      let (w, p, t, same) =
        one_switch form.form_type next form.expense form.income form.transfer core h in
      elim same [
        | inl k ↦
            let (w', p', t', same') = switch_each_keeps w rest core k in
            (w', rw p p', t' ∙ ap (λ t. last_of t rest) t, same')
        | inr k ↦
            let (w', p', t', same') = switch_each_keeps w rest (filled a core) k in
            (
              w',
              rw p p',
              t' ∙ ap (λ t. last_of t rest) t,
              inr (elim same' [ inl e ↦ e | inr e ↦ e ]),
            )
      ]
