-- ===== src/Form/Submit.antt =====
-- frontend/actions/txform/index.ts: the request that records a form. The session, the call of the
-- backend and the refresh of the pages after it are not modelled; a call that is made is answered.
pub mod Dates
pub mod Answers
pub mod Messages
pub mod Kept
use prosper.Prelude.{
  ℕ, String, Bool, true, false, ◌&&◌, Option, none, some, List, [], ◌∷◌, inl, inr, if◌then◌else◌,
  Result, ok, err, or_throw, ◌>>=◌, missing_form, missing_repayment, invalid_timestamp,
}
use prosper.Prelude.Int.{ℤ, pos, ◌*ℤ◌, div_floor, rem_trunc}
use prosper.Model.Ledger.{Timestamp}
use prosper.Model.Ledger.Forms.{
  SharingType, OriginKey, RepaymentInput, ExpenseFormInput, IncomeFormInput, TransferFormInput,
  FormInput, WriteTransactionFormRequest,
}
use prosper.Form.{
  FormTime, Repayment, RepaymentFields, ExpenseForm, IncomeForm, TransferForm, TransactionForm,
  date, text, or_default,
}
use prosper.Form.Expense.{is_other_repaid}
use prosper.Form.Values.{Values}
use prosper.Form.Validation.{Issue, safe_parse}

-- `dateToTimestamp` of frontend/lib/grpc/timestamp.ts, of a number of milliseconds: `%` of the
-- language has the sign of the number.
unfoldable pub date_to_timestamp : ℤ → Timestamp
unfolding div_floor rem_trunc
date_to_timestamp ms = record {
  seconds = div_floor ms 1_000;
  nanos = rem_trunc ms 1_000 *ℤ pos 1_000_000;
}

-- `originListSchema.safeParse(…).success`: the kind is an `OriginKind` already.
unfoldable pub all_keyed : List OriginKey → Bool
all_keyed [] = true
all_keyed (o ∷ origins) = elim o.key [ String.[] ↦ false | String.◌∷◌ _ _ ↦ all_keyed origins ]

unfoldable pub parse_origins : List OriginKey → List OriginKey
unfolding all_keyed
parse_origins origins = if all_keyed origins then origins else []

unfoldable pub pick_tag_names : Values → List String
pick_tag_names form = elim form.expense [
  | some e ↦ e.tag_names
  | none ↦ elim form.income [
    | some i ↦ i.tag_names
    | none ↦ elim form.transfer [ some t ↦ t.tag_names | none ↦ [] ]
  ]
]

pub data Outcome : Type 0 where
  client_error : List Issue → Outcome
  written : WriteTransactionFormRequest → Outcome

abbrev pub expense_message :
    ExpenseForm Repayment → Option RepaymentInput → Timestamp → ExpenseFormInput
expense_message e repayment timestamp = record {
  timestamp = timestamp;
  description = or_default e.description "";
  vendor = e.vendor;
  category_id = e.category_id;
  account_id = e.account_id;
  currency = e.currency;
  payer = e.payer;
  companion = e.companion;
  amount_nanos = e.amount;
  own_share_nanos = e.own_share_amount;
  trip_name = e.trip_name;
  sharing_type = e.sharing_type;
  repayment = repayment;
}

abbrev pub income_message : IncomeForm → Timestamp → IncomeFormInput
income_message i timestamp = record {
  timestamp = timestamp;
  description = or_default i.description "";
  payer = i.payer;
  category_id = i.category_id;
  account_id = i.account_id;
  amount_nanos = i.amount;
  is_shared = i.is_shared;
  companion = i.companion;
  own_share_nanos = i.own_share_amount;
  parent_transaction_id = i.parent_transaction_id;
}

abbrev pub transfer_message : TransferForm → Timestamp → TransferFormInput
transfer_message t timestamp = record {
  timestamp = timestamp;
  description = or_default t.description "";
  category_id = t.category_id;
  from_account_id = t.from_account_id;
  to_account_id = t.to_account_id;
  amount_sent_nanos = t.amount_sent;
  amount_received_nanos = t.amount_received;
}

unfoldable pub request_of :
    Option ℕ → List OriginKey → Values → FormInput → WriteTransactionFormRequest
unfolding pick_tag_names parse_origins
request_of transaction_id origins values input = record {
  transaction_id_to_supersede = transaction_id;
  tag_names = pick_tag_names values;
  origins = parse_origins origins;
  form = input;
}

-- `new Date(t)` of a text, none when it is an invalid date.
module _ (parse_date : String → Option ℤ) where
  abbrev pub date_of : FormTime → Option ℤ
  date_of (date d) = d
  date_of (text s) = parse_date s

  unfoldable pub form_date_to_timestamp : FormTime → Result Timestamp
  unfolding date_to_timestamp
  form_date_to_timestamp t = do
    ms ← or_throw (date_of t) invalid_timestamp
    ok (date_to_timestamp ms)

  -- The repayment of a repaid expense, and none for the other types.
  unfoldable pub repayment_input : SharingType → Option Repayment → Result (Option RepaymentInput)
  unfolding form_date_to_timestamp
  repayment_input SharingType.paid_other_repaid repayment = do
    r ← or_throw repayment missing_repayment
    timestamp ← form_date_to_timestamp r.timestamp
    ok (
        some (record {
          account_id = r.account_id;
          timestamp = timestamp;
          category_id = r.category_id;
        }))
  repayment_input _ repayment = ok none

  unfoldable pub expense_input : ExpenseForm Repayment → Result ExpenseFormInput
  unfolding repayment_input form_date_to_timestamp
  expense_input e = do
    repayment ← repayment_input e.sharing_type e.repayment
    timestamp ← form_date_to_timestamp e.timestamp
    ok (expense_message e repayment timestamp)

  unfoldable pub income_input : IncomeForm → Result IncomeFormInput
  unfolding form_date_to_timestamp
  income_input i = do
    timestamp ← form_date_to_timestamp i.timestamp
    ok (income_message i timestamp)

  unfoldable pub transfer_input : TransferForm → Result TransferFormInput
  unfolding form_date_to_timestamp
  transfer_input t = do
    timestamp ← form_date_to_timestamp t.timestamp
    ok (transfer_message t timestamp)

  -- The first variant that is there.
  unfoldable pub build_variant :
      Option (ExpenseForm Repayment) → Option IncomeForm → Option TransferForm → Result FormInput
  unfolding expense_input income_input transfer_input
  build_variant (some e) i t = do input ← expense_input e; ok (FormInput.expense input)
  build_variant none (some i) t = do input ← income_input i; ok (FormInput.income input)
  build_variant none none (some t) = do input ← transfer_input t; ok (FormInput.transfer input)
  build_variant none none none = err missing_form

  unfoldable pub build_form : Values → Result FormInput
  unfolding build_variant
  build_form form = build_variant form.expense form.income form.transfer

  -- `is_valid` is `isValid` of date-fns.
  unfoldable pub upsert_transaction :
      (FormTime → Bool)
      → Option ℕ
      → List OriginKey
      → TransactionForm RepaymentFields
      → Result Outcome
  unfolding safe_parse request_of build_form
  upsert_transaction is_valid transaction_id origins form = elim (safe_parse is_valid form) [
    | inl issues ↦ ok (client_error issues)
    | inr values ↦ (do
      input ← build_form values
      ok (written (request_of transaction_id origins values input)))
  ]
