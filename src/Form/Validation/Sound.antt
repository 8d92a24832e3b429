-- ===== src/Form/Validation/Sound.antt =====
-- What holds of the values that the schemas of frontend/components/txform accept.
use prosper.Prelude.{
  ◌≡◌, refl, Bool, true, false, not, Option, none, some, List, [], ◌∷◌, ◌++◌, ◌≢◌, ◌⊎◌, inl, inr,
  All, arith, ap,
}
use prosper.Form.{
  FormTime, FormType, Repayment, RepaymentFields, ExpenseForm, IncomeForm, TransferForm,
  TransactionForm,
}
use prosper.Prelude.Int.{ltb_ℤ}
use prosper.Form.Values.{Values}
use prosper.Form.Validation.{
  Issue, Parsed, with_variants, missing_variant, missing_field, issues_of, repayment_rows,
  expense_rows, income_rows, transfer_rows, complete_repayment, expense_field_rows, trimmed_expense,
  parse_expense, parse_income, parse_transfer, parse_optional, has_variant, collect, parse_form,
  safe_parse, outcome, expense_with, map_some,
}

-- A row whose test does not hold.
abbrev pub Passes : Bool × Issue → Type 0
Passes row = row.0 ≡ false

-- Either there is an issue, or there is a value, for which `P` holds.
abbrev pub Decides : {A : Type 0} → (A → Type 0) → Parsed A → Type 0
Decides {A = A} P p = (p.issues ≢ []) ⊎ ((a : A) × (p.issues ≡ []) × (p.value ≡ some a) × P a)

issues_of-Passes : (rows : List (Bool × Issue)) → issues_of rows ≡ [] → All Passes rows
unfolding issues_of
issues_of-Passes [] h = tt
issues_of-Passes (row ∷ rows) h = ground (arith, issues_of-Passes rows)

append_empty : (xs ys : List Issue) → xs ++ ys ≡ [] → (xs ≡ []) × (ys ≡ [])
append_empty [] ys h = (refl, h)
append_empty (x ∷ xs) ys h = cc

append_empty_each :
    (xs ys zs : List Issue) → xs ++ ys ++ zs ≡ [] → (xs ≡ []) × (ys ≡ []) × (zs ≡ [])
append_empty_each xs ys zs h =
    let (front, back) = append_empty (xs ++ ys) zs h in
    let (first, second) = append_empty xs ys front in (first, second, back)

append_last : (xs : List Issue) → (xs ++ missing_field ∷ [] ≢ [])
append_last [] h = cc
append_last (x ∷ xs) h = cc

pub not-false : {b : Bool} → not b ≡ false → b ≡ true
not-false {b = true} h = refl
not-false {b = false} h = cc

List-cases' : (xs : List Issue) → (xs ≡ []) ⊎ ((i : Issue) × (is : List Issue) × (xs ≡ i ∷ is))
List-cases' [] = inl refl
List-cases' (x ∷ xs) = inr (x, xs, refl)

List-cases : (xs : List Issue) → (xs ≡ []) ⊎ (xs ≢ [])
List-cases [] = inl refl
List-cases (x ∷ xs) = inr (λ h. cc)

Decides-empty :
    {A : Type 0} (P : A → Type 0) (p : Parsed A) (a : A)
    → p.value ≡ some a
    → (p.issues ≡ [] → P a)
    → Decides P p
Decides-empty P p a h k = elim (List-cases p.issues) [
  | inl e ↦ inr (a, e, h, k e)
  | inr ne ↦ inl ne
]

abbrev pub OptionAll : {A : Type 0} → (A → Type 0) → Option A → Type 0
OptionAll P none = Unit
OptionAll P (some a) = P a

parse_optional-Decides :
    {A B : Type 0} (P : B → Type 0) (parse : A → Parsed B)
    → ((a : A) → Decides P (parse a))
    → (o : Option A) → Decides (OptionAll P) (parse_optional parse o)
unfolding parse_optional
parse_optional-Decides P parse h none = inr (none, refl, refl, tt)
parse_optional-Decides P parse h (some a) = elim (h a) [
  | inl issue ↦ inl issue
  | inr (b, e, k, p) ↦ inr (some b, e, ap map_some k, p)
]

outcome-Decides :
    {A : Type 0} (P : A → Type 0) (p : Parsed A)
    → Decides P p
    → ((issues : List Issue) × (issues ≢ []) × (outcome p.issues p.value ≡ inl issues))
      ⊎ ((a : A) × (outcome p.issues p.value ≡ inr a) × P a)
unfolding outcome
outcome-Decides P p (inl h) = elim (List-cases' p.issues) [
  | inl e ↦ absurd (h e)
  | inr (i, is, e) ↦ inl (i ∷ is, (λ k. cc), rw e refl)
]
outcome-Decides P p (inr (a, e, k, q)) = inr (a, rw (e, k) refl, q)

module _ (is_valid : FormTime → Bool) where
  abbrev pub AcceptedExpense : ExpenseForm Repayment → Type 0
  AcceptedExpense e =
      All Passes (repayment_rows is_valid e.repayment) × All Passes (expense_rows is_valid e)

  abbrev pub AcceptedIncome : IncomeForm → Type 0
  AcceptedIncome i = (is_valid i.timestamp ≡ true) × (ltb_ℤ i.amount i.own_share_amount ≡ false)

  abbrev pub AcceptedTransfer : TransferForm → Type 0
  AcceptedTransfer t = All Passes (transfer_rows is_valid t)

  expense_with-Decides :
      (e : ExpenseForm RepaymentFields) (r : Option (Option Repayment))
      → Decides AcceptedExpense (expense_with is_valid e r)
  unfolding expense_with
  expense_with-Decides e none = inl (λ h. absurd (append_last (issues_of (expense_field_rows e)) h))
  expense_with-Decides e (some r) =
      Decides-empty AcceptedExpense (expense_with is_valid e (some r)) _ refl (λ h.
        let (fields, repayment, own) =
          append_empty_each (issues_of (expense_field_rows e))
            (issues_of (repayment_rows is_valid r))
            (issues_of (expense_rows is_valid (trimmed_expense e r))) h in
        (
          issues_of-Passes (repayment_rows is_valid r) repayment,
          issues_of-Passes (expense_rows is_valid (trimmed_expense e r)) own,
        ))

  parse_expense-Decides :
      (e : ExpenseForm RepaymentFields) → Decides AcceptedExpense (parse_expense is_valid e)
  unfolding parse_expense
  parse_expense-Decides e = expense_with-Decides e (complete_repayment e.repayment)

  parse_income-Decides : (i : IncomeForm) → Decides AcceptedIncome (parse_income is_valid i)
  unfolding parse_income
  parse_income-Decides i = Decides-empty AcceptedIncome (parse_income is_valid i) _ refl (λ h.
      let rows = issues_of-Passes (income_rows is_valid i) h in
      (not-false rows.1.1.1.1.1.1.0, rows.1.1.1.1.1.1.1.0))

  parse_transfer-Decides : (t : TransferForm) → Decides AcceptedTransfer (parse_transfer is_valid t)
  unfolding parse_transfer
  parse_transfer-Decides t =
      Decides-empty _ (parse_transfer is_valid t) _ refl
        (λ h. issues_of-Passes (transfer_rows is_valid t) h)

  abbrev pub AcceptedValues : Values → Type 0
  AcceptedValues v =
      OptionAll AcceptedExpense v.expense
      × OptionAll AcceptedIncome v.income
      × OptionAll AcceptedTransfer v.transfer
      × (has_variant v ≡ true)

  collect-issues :
      (form_type : FormType) (found : List Issue) (e : Option (Option (ExpenseForm Repayment)))
      (i : Option (Option IncomeForm)) (t : Option (Option TransferForm))
      → (collect form_type found e i t).issues ≡ []
      → found ≡ []
  unfolding collect
  collect-issues form_type found (some e) (some i) (some t) h =
      (append_empty found
        (issues_of ((not (has_variant (with_variants form_type e i t)), missing_variant) ∷ [])) h).0
  collect-issues form_type found none i t h = h
  collect-issues form_type found (some e) none t h = h
  collect-issues form_type found (some e) (some i) none h = h

  empty_parts :
      (form_type : FormType) (e : Parsed (Option (ExpenseForm Repayment)))
      (i : Parsed (Option IncomeForm)) (t : Parsed (Option TransferForm))
      → (collect form_type (e.issues ++ i.issues ++ t.issues) e.value i.value t.value).issues ≡ []
      → (e.issues ≡ []) × (i.issues ≡ []) × (t.issues ≡ [])
  empty_parts form_type e i t k =
      append_empty_each e.issues i.issues t.issues
        (collect-issues form_type (e.issues ++ i.issues ++ t.issues) e.value i.value t.value k)

  collect-Decides :
      (form_type : FormType) (e : Parsed (Option (ExpenseForm Repayment)))
      (i : Parsed (Option IncomeForm)) (t : Parsed (Option TransferForm))
      → Decides (OptionAll AcceptedExpense) e
      → Decides (OptionAll AcceptedIncome) i
      → Decides (OptionAll AcceptedTransfer) t
      → Decides AcceptedValues
          (collect form_type (e.issues ++ i.issues ++ t.issues) e.value i.value t.value)
  unfolding collect
  collect-Decides form_type e i t (inl h) hi ht = inl (λ k. h (empty_parts form_type e i t k).0)
  collect-Decides form_type e i t (inr he) (inl h) ht =
      inl (λ k. h (empty_parts form_type e i t k).1)
  collect-Decides form_type e i t (inr he) (inr hi) (inl h) =
      inl (λ k. h (empty_parts form_type e i t k).2)
  collect-Decides form_type e i t (inr (e', ee, ek, ep)) (inr (i', ie, ik, ip))
        (inr (t', te, tk, tp)) =
      rw (ee, ie, te, ek, ik, tk)
        (Decides-empty AcceptedValues (collect form_type [] (some e') (some i') (some t')) _ refl
          (λ h. (
            ep,
            ip,
            tp,
            not-false
                (issues_of-Passes
                  ((not (has_variant (with_variants form_type e' i' t')), missing_variant) ∷ [])
                  h).0,
          )))

  parse_form-Decides :
      (form : TransactionForm RepaymentFields) → Decides AcceptedValues (parse_form is_valid form)
  unfolding parse_form
  parse_form-Decides form =
      collect-Decides form.form_type (parse_optional (parse_expense is_valid) form.expense)
        (parse_optional (parse_income is_valid) form.income)
        (parse_optional (parse_transfer is_valid) form.transfer)
        (parse_optional-Decides AcceptedExpense (parse_expense is_valid) parse_expense-Decides
          form.expense)
        (parse_optional-Decides AcceptedIncome (parse_income is_valid) parse_income-Decides
          form.income)
        (parse_optional-Decides AcceptedTransfer (parse_transfer is_valid) parse_transfer-Decides
          form.transfer)

  -- A form that is not accepted has an issue, and one that is accepted passes every test.
  pub safe_parse-cases :
      (form : TransactionForm RepaymentFields)
      → ((issues : List Issue) × (issues ≢ []) × (safe_parse is_valid form ≡ inl issues))
        ⊎ ((v : Values) × (safe_parse is_valid form ≡ inr v) × AcceptedValues v)
  unfolding safe_parse
  safe_parse-cases form =
      outcome-Decides AcceptedValues (parse_form is_valid form) (parse_form-Decides form)
