-- ===== src/Form/Tests.antt =====
-- Tests of frontend/components/txform, frontend/actions/txform/index.ts and
-- frontend/lib/txsuggestions, and the theorems at concrete inputs.
use prosper.Prelude.{
  ◌≡◌, ◌↔◌, ◌⊎◌, refl, inl, ℕ, String, Bool, true, false, Option, none, some, List, [], ◌∷◌, ok,
  err, bad_transition,
}
use prosper.Prelude.Int.{ℤ, pos, negsuc, ◌≤ℤ◌, ◌+ℤ◌, ◌*ℤ◌, rem_trunc}
use prosper.Prelude.Text.{is_blank}
use prosper.Model.BankAccount.{BankAccount}
use prosper.Category.{Category}
use prosper.Model.Ledger.{timestamp_to_epoch}
use prosper.Model.Ledger.Forms.{Candidate, TransactionDraft, OriginKind}
use prosper.Transaction.{PersonalExpense}
use prosper.Form.{
  FormTime, FormType, date, text, Repayment, RepaymentFields, ExpenseForm, expense_form,
}
use prosper.Form.Draft.{winner}
use prosper.Form.Draft.Winner.{IsFirstBest, winner-IsFirstBest}
use prosper.Form.Expense.{expense_form_empty, empty_with}
use prosper.Form.Values.{Values, values_for_new_type}
use prosper.Form.Switch.{Core, core_of, filled, switch_each, switch_each_keeps}
use prosper.Form.Validation.{safe_parse, missing_variant, empty_text}
use prosper.Form.Sharing.{
  Context, Fields, paid_other_pressed, draft_payment, draft_date, set_paid_other,
}
use prosper.Form.Sharing.Opened.{Opened, opened_empty, fields_of, IsConsistent}
use prosper.Form.Sharing.Consistent.{Reachable, Reachable-IsConsistent, opened, step}
use prosper.Form.Submit.{date_to_timestamp, parse_origins}
use prosper.Form.Submit.Dates.{timestamp_to_epoch-date_to_timestamp}

-- A second and a half before 1970: the fraction goes the wrong way.
before_1970 :
    timestamp_to_epoch (some (date_to_timestamp (negsuc 1_499))) ≡ ok (negsuc 2_499_999_999)
unfolding timestamp_to_epoch date_to_timestamp ◌+ℤ◌ ◌*ℤ◌
before_1970 = refl

timestamp_to_epoch-date_to_timestamp_example :
    (timestamp_to_epoch (some (date_to_timestamp (negsuc 1_999)))
      ≡ ok (negsuc 1_999 *ℤ pos 1_000_000))
    ↔ ((pos 0 ≤ℤ negsuc 1_999) ⊎ (rem_trunc (negsuc 1_999) 1_000 ≡ pos 0))
timestamp_to_epoch-date_to_timestamp_example = timestamp_to_epoch-date_to_timestamp (negsuc 1_999)

-- A text is no valid date, and nor is an invalid date.
abbrev is_valid : FormTime → Bool
is_valid (date none) = false
is_valid (date (some _)) = true
is_valid (text _) = false

abbrev parse_date : String → Option ℤ
parse_date s = none

abbrev lunch_form : ExpenseForm RepaymentFields
lunch_form = record (fields_of (empty_with (pos 86_400_000) 10 1)) {
  vendor = " cafe ";
  amount = pos 12_000_000_000;
  own_share_amount = pos 6_000_000_000;
}

-- A vendor of white space is none.
no_vendor :
    safe_parse is_valid (expense_form (record lunch_form { vendor = "  " })) ≡ inl (empty_text ∷ [])
unfolding safe_parse fields_of is_blank
no_vendor = refl

-- The variant of the type has to be there.
no_variant :
    safe_parse is_valid (record (expense_form lunch_form) { form_type = FormType.income })
    ≡ inl (missing_variant ∷ [])
unfolding safe_parse fields_of is_blank
no_variant = refl

-- One origin without a key drops all of them.
empty_key :
    parse_origins (
      record { kind = OriginKind.open_banking; key = "a" }
      ∷ record { kind = OriginKind.open_banking; key = "" }
      ∷ [])
    ≡ []
unfolding parse_origins
empty_key = refl

abbrev lunch : PersonalExpense
lunch = record {
  id = 12;
  timestamp_epoch = pos 5_000_000;
  vendor = "cafe";
  amount_nanos = pos 7_500_000_000;
  companions = [];
  note = "lunch";
  account_id = 1;
  category_id = 10;
  tags_ids = [];
  trip_id = none;
  refund_group_transaction_ids = [];
}

abbrev lunch_values : Values
lunch_values = expense_form (record (empty_with (pos 5) 10 1) {
  amount = pos 7_500_000_000;
  own_share_amount = pos 7_500_000_000;
  vendor = "cafe";
  description = some "lunch";
})

abbrev the_category : Category
the_category = record { id = 10; name = "food"; display_order = pos 0; parent_category_id = none }

abbrev the_account : BankAccount
the_account = record {
  id = 3;
  name = "current";
  bank_id = 3;
  initial_balance_nanos = pos 0;
  currency_code = some "USD";
  stock = none;
  display_order = pos 0;
  archived = false;
  joint = false;
}

-- A payment of 20 from the account, at the start of 1970.
abbrev payment : TransactionDraft
payment = record {
  origins = [];
  recorded_transaction_ids = [];
  form_type = [];
  timestamp =
      record { confidence = pos 1; value = some (record { seconds = pos 0; nanos = pos 0 }) } ∷ [];
  amount = record { confidence = pos 1; value = pos 20_000_000_000 } ∷ [];
  own_share_amount = [];
  amount_received = [];
  account_from_id = record { confidence = pos 1; value = 3 } ∷ [];
  account_to_id = [];
  category_id = [];
  vendor = [];
  payer = [];
  description = [];
  companion = [];
  currency = [];
  sharing_type = [];
  tags = [];
  trip_name = [];
  repayment_category_id = [];
  parent_transaction_id = [];
}

abbrev context : Context
context = record {
  draft = some payment;
  display_currency_code = "USD";
  bank_accounts = the_account ∷ [];
}

abbrev empty_values : ExpenseForm Repayment
empty_values = empty_with (pos 0) 10 3

abbrev repaid_fields : Fields
repaid_fields = set_paid_other context 10 (fields_of empty_values)

-- Someone else paid twice what was repaid.
repaid_amount : repaid_fields.amount ≡ pos 40_000_000_000
unfolding set_paid_other ◌*ℤ◌
repaid_amount = refl

empty_values-Opened : Opened empty_values
unfolding expense_form_empty
empty_values-Opened = opened_empty (pos 0) (the_category ∷ []) (the_account ∷ []) empty_values refl

repaid_fields-Reachable : Reachable context repaid_fields
unfolding fields_of
repaid_fields-Reachable =
    step (fields_of empty_values) repaid_fields (opened empty_values empty_values-Opened)
      (paid_other_pressed 10 (fields_of empty_values) refl)

payment_dated :
    (p : ℤ × ℕ)
    → draft_payment context.draft ≡ some p
    → (t : FormTime) × (draft_date context.draft ≡ some t)
unfolding draft_date
payment_dated p h = (_, refl)

Reachable-IsConsistent_example :
    IsConsistent repaid_fields.sharing_type repaid_fields.account_id repaid_fields.repayment
Reachable-IsConsistent_example =
    Reachable-IsConsistent context payment_dated repaid_fields repaid_fields-Reachable

abbrev candidates : List (Candidate String)
candidates =
    record { confidence = pos 1; value = "a" }
    ∷ record { confidence = pos 2; value = "b" }
    ∷ record { confidence = pos 2; value = "c" }
    ∷ []

first_of_best : winner candidates ≡ some (record { confidence = pos 2; value = "b" })
unfolding winner
first_of_best = refl

candidates-IsFirstBest :
    (candidates ≡ []) × (winner candidates ≡ none)
    ⊎ (best : Candidate String) × (winner candidates ≡ some best) × IsFirstBest candidates best
candidates-IsFirstBest = winner-IsFirstBest candidates

-- There is no form without a type.
no_type : values_for_new_type lunch_values none [] ≡ err bad_transition
unfolding values_for_new_type
no_type = refl

abbrev lunch_core : Core
lunch_core = record {
  time = date (some (pos 5));
  amount = pos 7_500_000_000;
  category_id = 10;
  name = "cafe";
  account_id = some 1;
}

switch_each_keeps_example :
    (w : Values) × (switch_each lunch_values
        (FormType.income ∷ FormType.expense ∷ [])
        (the_account ∷ [])
      ≡ ok w)
    × (w.form_type ≡ FormType.expense)
    × ((core_of w ≡ some lunch_core) ⊎ (core_of w ≡ some (filled the_account lunch_core)))
switch_each_keeps_example =
    switch_each_keeps the_account [] lunch_values (FormType.income ∷ FormType.expense ∷ [])
      lunch_core refl
