-- ===== src/Form/Validation.antt =====
-- The schemas of the forms: types.ts in frontend/components/txform and its directories. A schema
-- gives the issues it finds, and the value when no field is missing; the order of the issues is
-- zod's, their texts and paths are not modelled.
pub mod Sound
use prosper.Prelude.{
  ℕ, String, Bool, true, false, not, ◌&&◌, ◌||◌, Option, none, some, List, [], ◌∷◌, ◌++◌, ◌⊎◌, inl,
  inr, ◌==◌, nat_eq, nat_beq, if◌then◌else◌, present_text,
}
use prosper.Prelude.Int.{ℤ, pos, ltb_ℤ, leb_ℤ}
use prosper.Prelude.Text.{is_blank, trim}
use prosper.Model.Currency.{find_by_code}
use prosper.Model.Ledger.Forms.{SharingType}
use prosper.Form.{
  FormTime, FormType, Repayment, RepaymentFields, ExpenseForm, IncomeForm, TransferForm,
  TransactionForm,
}
use prosper.Form.Expense.{is_self_shared, is_other_repaid, is_paid_other}
use prosper.Form.Values.{Values}

pub data Issue : Type 0 where
  negative_amount not_positive missing_field empty_text : Issue
  invalid_date own_share_too_large account_required companion_required : Issue
  payer_required currency_required unsupported_currency repayment_required : Issue
  same_accounts missing_variant : Issue

-- The issues whose tests hold.
unfoldable pub issues_of : List (Bool × Issue) → List Issue
issues_of [] = []
issues_of (row ∷ rows) = let rest = issues_of rows in if row.0 then row.1 ∷ rest else rest

-- What a schema makes of its input: the issues, and the value unless it is given up.
pub record Parsed (A : Type 0) : Type 0 where
  pub issues : List Issue
  pub value : Option A

abbrev is_below_zero : ℤ → Bool
is_below_zero a = ltb_ℤ a (pos 0)

-- `!(x > 0)` of an id.
abbrev pub is_zero_id : ℕ → Bool
is_zero_id id = nat_beq id 0

abbrev is_zero_or_null : Option ℕ → Bool
is_zero_or_null none = false
is_zero_or_null (some id) = is_zero_id id

-- `!text?.trim()`
abbrev pub is_blank_or_null : Option String → Bool
is_blank_or_null none = true
is_blank_or_null (some s) = is_blank s

abbrev pub is_null {ℓ} : {A : Type ℓ} → Option A → Bool
is_null none = true
is_null (some _) = false

-- `data.currency && !findByCode(data.currency)`
abbrev pub is_unsupported : Option String → Bool
is_unsupported currency = elim (present_text currency) [
  | none ↦ false
  | some code ↦ is_null (find_by_code code)
]

abbrev pub is_paid_self : SharingType → Bool
is_paid_self SharingType.paid_self_not_shared = true
is_paid_self SharingType.paid_self_shared = true
is_paid_self _ = false

-- The repayment of a form that is edited; `none` when a field is missing.
unfoldable pub complete_repayment : Option RepaymentFields → Option (Option Repayment)
complete_repayment none = some none
complete_repayment (some r) = elim r.timestamp [
  | none ↦ none
  | some timestamp ↦ elim r.category_id [
    | none ↦ none
    | some category ↦ elim r.account_id [
      | none ↦ none
      | some account ↦
          some
            (some (record { timestamp = timestamp; category_id = category; account_id = account }))
    ]
  ]
]

-- The fields of an expense.
abbrev pub expense_field_rows : {R : Type 0} → ExpenseForm R → List (Bool × Issue)
expense_field_rows e =
    (is_below_zero e.amount, negative_amount)
    ∷ (is_below_zero e.own_share_amount, negative_amount)
    ∷ (is_zero_or_null e.account_id, not_positive)
    ∷ (is_zero_id e.category_id, not_positive)
    ∷ (is_blank e.vendor, empty_text)
    ∷ []

-- The value of the schema: `trim` changes the vendor.
abbrev pub trimmed_expense : ExpenseForm RepaymentFields → Option Repayment → ExpenseForm Repayment
trimmed_expense e repayment = record {
  timestamp = e.timestamp;
  amount = e.amount;
  own_share_amount = e.own_share_amount;
  account_id = e.account_id;
  category_id = e.category_id;
  vendor = trim e.vendor;
  companion = e.companion;
  payer = e.payer;
  currency = e.currency;
  sharing_type = e.sharing_type;
  repayment = repayment;
  tag_names = e.tag_names;
  description = e.description;
  trip_name = e.trip_name;
}

abbrev pub map_some : {B : Type 0} → Option B → Option (Option B)
map_some none = none
map_some (some b) = some (some b)

-- `schema.optional()`
unfoldable pub parse_optional : {A B : Type 0} → (A → Parsed B) → Option A → Parsed (Option B)
parse_optional parse none = record { issues = []; value = some none }
parse_optional parse (some a) = record {
  issues = (parse a).issues;
  value = map_some (parse a).value;
}

-- The test of `refine`.
abbrev pub has_variant : Values → Bool
has_variant form = elim form.form_type [
  | FormType.expense ↦ not (is_null form.expense)
  | FormType.income ↦ not (is_null form.income)
  | FormType.transfer ↦ not (is_null form.transfer)
]

abbrev pub with_variants :
    FormType → Option (ExpenseForm Repayment) → Option IncomeForm → Option TransferForm → Values
with_variants form_type e i t = record {
  form_type = form_type;
  expense = e;
  income = i;
  transfer = t;
}

-- The object of the three variants, and the test of `refine`, which is skipped when a field is
-- missing.
unfoldable pub collect :
    FormType
    → List Issue
    → Option (Option (ExpenseForm Repayment))
    → Option (Option IncomeForm)
    → Option (Option TransferForm)
    → Parsed Values
unfolding issues_of
collect form_type found (some e) (some i) (some t) = record {
  issues =
      found
      ++ issues_of ((not (has_variant (with_variants form_type e i t)), missing_variant) ∷ []);
  value = some (with_variants form_type e i t);
}
collect form_type found _ _ _ = record { issues = found; value = none }

-- The result of a schema: the issues, or the value when there are none.
unfoldable pub outcome : {A : Type 0} → List Issue → Option A → List Issue ⊎ A
outcome (i ∷ issues) value = inl (i ∷ issues)
outcome [] none = inl []
outcome [] (some a) = inr a

-- `isValid` of date-fns.
module _ (is_valid : FormTime → Bool) where
  abbrev pub repayment_rows : Option Repayment → List (Bool × Issue)
  repayment_rows none = []
  repayment_rows (some r) =
      (is_zero_id r.category_id, not_positive)
      ∷ (is_zero_id r.account_id, not_positive)
      ∷ (not (is_valid r.timestamp), invalid_date)
      ∷ []

  -- `superRefine` of an expense.
  abbrev pub expense_rows : {R : Type 0} → ExpenseForm R → List (Bool × Issue)
  expense_rows e =
      (not (is_valid e.timestamp), invalid_date)
      ∷ (ltb_ℤ e.amount e.own_share_amount, own_share_too_large)
      ∷ (is_paid_self e.sharing_type && is_null e.account_id, account_required)
      ∷ (is_self_shared e.sharing_type && is_blank_or_null e.companion, companion_required)
      ∷ (is_paid_other e.sharing_type && is_blank_or_null e.payer, payer_required)
      ∷ (is_paid_other e.sharing_type && is_blank_or_null e.currency, currency_required)
      ∷ (is_paid_other e.sharing_type && is_unsupported e.currency, unsupported_currency)
      ∷ (is_other_repaid e.sharing_type && is_null e.repayment, repayment_required)
      ∷ []

  -- The rest of the parsing, when the repayment has been read.
  unfoldable pub expense_with :
      ExpenseForm RepaymentFields → Option (Option Repayment) → Parsed (ExpenseForm Repayment)
  unfolding issues_of
  expense_with e none = record {
    issues = issues_of (expense_field_rows e) ++ missing_field ∷ [];
    value = none;
  }
  expense_with e (some repayment) = record {
    issues =
        issues_of (expense_field_rows e)
        ++ issues_of (repayment_rows repayment)
        ++ issues_of (expense_rows (trimmed_expense e repayment));
    value = some (trimmed_expense e repayment);
  }

  unfoldable pub parse_expense : ExpenseForm RepaymentFields → Parsed (ExpenseForm Repayment)
  unfolding complete_repayment expense_with
  parse_expense e = expense_with e (complete_repayment e.repayment)

  abbrev pub income_rows : IncomeForm → List (Bool × Issue)
  income_rows i =
      (is_below_zero i.amount, negative_amount)
      ∷ (is_below_zero i.own_share_amount, negative_amount)
      ∷ (is_zero_id i.account_id, not_positive)
      ∷ (is_zero_id i.category_id, not_positive)
      ∷ (is_blank i.payer, empty_text)
      ∷ (is_zero_or_null i.parent_transaction_id, not_positive)
      ∷ (not (is_valid i.timestamp), invalid_date)
      ∷ (ltb_ℤ i.amount i.own_share_amount, own_share_too_large)
      ∷ (i.is_shared && is_blank_or_null i.companion, companion_required)
      ∷ []

  unfoldable pub parse_income : IncomeForm → Parsed IncomeForm
  unfolding issues_of
  parse_income i = record {
    issues = issues_of (income_rows i);
    value = some (record i { payer = trim i.payer });
  }

  abbrev pub transfer_rows : TransferForm → List (Bool × Issue)
  transfer_rows t =
      (leb_ℤ t.amount_sent (pos 0), not_positive)
      ∷ (leb_ℤ t.amount_received (pos 0), not_positive)
      ∷ (is_zero_id t.from_account_id, not_positive)
      ∷ (is_zero_id t.to_account_id, not_positive)
      ∷ (is_zero_id t.category_id, not_positive)
      ∷ (not (is_valid t.timestamp), invalid_date)
      ∷ (t.from_account_id == t.to_account_id, same_accounts)
      ∷ []

  unfoldable pub parse_transfer : TransferForm → Parsed TransferForm
  unfolding issues_of
  parse_transfer t = record { issues = issues_of (transfer_rows t); value = some t }

  unfoldable pub parse_form : TransactionForm RepaymentFields → Parsed Values
  unfolding collect parse_optional parse_expense parse_income parse_transfer
  parse_form form =
      let e = parse_optional parse_expense form.expense in
      let i = parse_optional parse_income form.income in
      let t = parse_optional parse_transfer form.transfer in
      collect form.form_type (e.issues ++ i.issues ++ t.issues) e.value i.value t.value

  -- `transactionFormValidationSchema.safeParse`
  unfoldable pub safe_parse : TransactionForm RepaymentFields → List Issue ⊎ Values
  unfolding parse_form outcome
  safe_parse form = outcome (parse_form form).issues (parse_form form).value
