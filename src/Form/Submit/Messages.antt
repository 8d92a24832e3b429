-- ===== src/Form/Submit/Messages.antt =====
-- What the message for a transaction has to say, when its form is submitted unchanged.
use prosper.Prelude.{◌≡◌, ◌⊎◌, if◌then◌else◌, true, false, none, some, List}
use prosper.Prelude.Int.{ℤ, div_trunc}
use prosper.Links.{TransactionLink, DebtSettling}
use prosper.Model.Ledger.{Timestamp}
use prosper.Model.Ledger.Forms.{SharingType, ExpenseFormInput, FormInput, RepaymentInput}
use prosper.Transaction.{
  Transaction, personal, third_party, of_expense, of_income, personal_expense, third_party_expense,
  income, transfer, PersonalExpense, ThirdPartyExpense,
}
use prosper.Transaction.Amounts.{own_share_amount_nanos_ignore_refunds}
use prosper.Form.Expense.Stored.{settling_link, has_companion}
use prosper.Form.Values.{Editable, an_income, a_transfer, an_expense}
use prosper.Form.Submit.{date_to_timestamp}

abbrev pub transaction_of : Editable → Transaction
transaction_of (an_income t) = income t
transaction_of (a_transfer t) = transfer t
transaction_of (an_expense (personal t)) = personal_expense t
transaction_of (an_expense (third_party t)) = third_party_expense t

-- A time to the millisecond, as it is sent.
abbrev pub sent_time : ℤ → Timestamp
sent_time epoch = date_to_timestamp (div_trunc epoch 1_000_000)

-- Paid by the user, and shared if there is a companion.
abbrev pub IsPaidSelf : PersonalExpense → ExpenseFormInput → Type 0
IsPaidSelf t e =
    (e.account_id ≡ some t.account_id)
    × (e.payer ≡ none)
    × (e.repayment ≡ none)
    × (e.sharing_type ≡ (
        if has_companion t.companions
        then SharingType.paid_self_shared
        else SharingType.paid_self_not_shared))

abbrev pub sent_repayment : PersonalExpense → RepaymentInput
sent_repayment r = record {
  account_id = r.account_id;
  timestamp = sent_time r.timestamp_epoch;
  category_id = r.category_id;
}

-- Paid by the payer, and repaid if a link settles the debt.
abbrev pub IsPaidOther : ThirdPartyExpense → List TransactionLink → ExpenseFormInput → Type 0
IsPaidOther t links e =
    (e.account_id ≡ none)
    × (e.payer ≡ some t.payer)
    × (e.currency ≡ some t.currency_code)
    × ((settling_link t.id links ≡ none)
          × (e.sharing_type ≡ SharingType.paid_other_owed)
          × (e.repayment ≡ none)
        ⊎ (d : DebtSettling) × (settling_link t.id links ≡ some d)
          × (e.sharing_type ≡ SharingType.paid_other_repaid)
          × (e.repayment ≡ some (sent_repayment d.repayment)))

-- The message says what the transaction says.
abbrev pub IsKept : Editable → List TransactionLink → FormInput → Type 0
IsKept (an_expense (personal t)) links (FormInput.expense e) =
    (e.amount_nanos ≡ t.amount_nanos)
    × (e.own_share_nanos ≡ own_share_amount_nanos_ignore_refunds (of_expense (personal t)))
    × (e.vendor ≡ t.vendor)
    × (e.category_id ≡ t.category_id)
    × (e.description ≡ t.note)
    × (e.timestamp ≡ sent_time t.timestamp_epoch)
    × IsPaidSelf t e
IsKept (an_expense (third_party t)) links (FormInput.expense e) =
    (e.amount_nanos ≡ t.amount_nanos)
    × (e.own_share_nanos ≡ own_share_amount_nanos_ignore_refunds (of_expense (third_party t)))
    × (e.vendor ≡ t.vendor)
    × (e.category_id ≡ t.category_id)
    × (e.description ≡ t.note)
    × (e.timestamp ≡ sent_time t.timestamp_epoch)
    × IsPaidOther t links e
IsKept (an_income t) links (FormInput.income i) =
    (i.amount_nanos ≡ t.amount_nanos)
    × (i.own_share_nanos ≡ own_share_amount_nanos_ignore_refunds (of_income t))
    × (i.payer ≡ t.payer)
    × (i.category_id ≡ t.category_id)
    × (i.description ≡ t.note)
    × (i.timestamp ≡ sent_time t.timestamp_epoch)
    × (i.account_id ≡ t.account_id)
    × (i.is_shared ≡ has_companion t.companions)
IsKept (a_transfer t) links (FormInput.transfer s) =
    (s.amount_sent_nanos ≡ t.sent_amount_nanos)
    × (s.amount_received_nanos ≡ t.received_amount_nanos)
    × (s.category_id ≡ t.category_id)
    × (s.description ≡ t.note)
    × (s.timestamp ≡ sent_time t.timestamp_epoch)
    × (s.from_account_id ≡ t.from_account_id)
    × (s.to_account_id ≡ t.to_account_id)
IsKept _ links _ = true ≡ false
