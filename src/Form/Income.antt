-- ===== src/Form/Income.antt =====
-- frontend/components/txform/income/defaults.tsx: the values of an income form that is made from
-- a draft or a transaction, or switched from another type.
use prosper.Prelude.{
  ℕ, Bool, true, false, Option, none, some, List, [], ◌∷◌, ◌==◌, nat_eq, any, if◌then◌else◌, Result,
  ok, err, ◌>>=◌, no_accounts,
}
use prosper.Prelude.Int.{ℤ}
use prosper.Category.{Category}
use prosper.Links.{TransactionLink, debt_settling, refund}
use prosper.Model.BankAccount.{BankAccount, first_visible_account_id}
use prosper.Model.Ledger.Forms.{SharingType, TransactionDraft}
use prosper.Model.Tag.{Tag}
use prosper.Transaction.{Expense, Income, personal, third_party, of_income, income}
use prosper.Transaction.Accessors.{transaction_tags}
use prosper.Transaction.Amounts.{own_share_amount_nanos_ignore_refunds}
use prosper.Form.{ExpenseForm, IncomeForm, TransferForm, date_of_epoch, or_default}
use prosper.Form.Draft.{
  winner_value, winner_or, draft_timestamp, draft_amount_dollar, draft_tag_names, draft_description,
}
use prosper.Form.Expense.{first_category_id, when_so}
use prosper.Form.Expense.Stored.{first_companion, has_companion, names_of}

-- `assert(bankAccounts.length > 0)`, and `bankAccounts[0].id` after it.
unfoldable pub first_account_id : List BankAccount → Result ℕ
first_account_id [] = err no_accounts
first_account_id (a ∷ _) = ok a.id

-- `prev.sharingType != PbSharingType.PAID_SELF_NOT_SHARED`
abbrev is_shared_type : SharingType → Bool
is_shared_type SharingType.paid_self_not_shared = false
is_shared_type _ = true

unfoldable pub expense_to_income :
    {R : Type 0} → ExpenseForm R → List BankAccount → Result IncomeForm
unfolding first_account_id
expense_to_income prev bank_accounts = do
  account ← first_account_id bank_accounts
  ok (record {
    timestamp = prev.timestamp;
    amount = prev.amount;
    own_share_amount = prev.own_share_amount;
    payer = prev.vendor;
    category_id = prev.category_id;
    account_id = or_default prev.account_id account;
    tag_names = [];
    companion = prev.companion;
    description = prev.description;
    parent_transaction_id = none;
    is_shared = is_shared_type prev.sharing_type;
  })

unfoldable pub transfer_to_income : TransferForm → IncomeForm
transfer_to_income prev = record {
  timestamp = prev.timestamp;
  amount = prev.amount_sent;
  own_share_amount = prev.amount_sent;
  payer = or_default prev.description "";
  category_id = prev.category_id;
  account_id = prev.from_account_id;
  tag_names = [];
  companion = none;
  description = none;
  parent_transaction_id = none;
  is_shared = false;
}

abbrev id_of_expense : Expense → ℕ
id_of_expense (personal e) = e.id
id_of_expense (third_party e) = e.id

-- Whether the link is a refund with the income among its refunds.
refunds_with : ℕ → TransactionLink → Bool
unfolding any
refunds_with id (debt_settling d) = false
refunds_with id (refund r) = any (λ (i : Income). i.id == id) r.refunds

-- `refunds?.expense.id ?? null`, for the first such link.
unfoldable pub refunded_id : ℕ → List TransactionLink → Option ℕ
unfolding refunds_with
refunded_id id [] = none
refunded_id id (debt_settling d ∷ links) = refunded_id id links
refunded_id id (refund r ∷ links) =
    if refunds_with id (refund r) then some (id_of_expense r.expense) else refunded_id id links

-- The values, with the tags that were found.
unfoldable pub income_with : Income → List TransactionLink → List Tag → IncomeForm
unfolding own_share_amount_nanos_ignore_refunds refunded_id
income_with t all_links tags = record {
  timestamp = date_of_epoch t.timestamp_epoch;
  amount = t.amount_nanos;
  own_share_amount = own_share_amount_nanos_ignore_refunds (of_income t);
  payer = t.payer;
  category_id = t.category_id;
  account_id = t.account_id;
  tag_names = names_of tags;
  description = some t.note;
  companion = first_companion t.companions;
  parent_transaction_id = refunded_id t.id all_links;
  is_shared = has_companion t.companions;
}

unfoldable pub income_from_transaction :
    Income → List Tag → List TransactionLink → Result IncomeForm
unfolding transaction_tags income_with
income_from_transaction t all_tags all_links = do
  tags ← transaction_tags (income t) all_tags
  ok (income_with t all_links tags)

-- `winnerSharingType(draft.sharingType) === PbSharingType.PAID_SELF_SHARED`
abbrev is_proposed_shared : Option SharingType → Bool
is_proposed_shared (some SharingType.paid_self_shared) = true
is_proposed_shared _ = false

-- `today` is `startOfDay(new Date())`.
unfoldable pub income_from_draft :
    ℤ → TransactionDraft → List Category → List BankAccount → Result IncomeForm
unfolding first_category_id first_visible_account_id draft_timestamp draft_amount_dollar winner_or
    winner_value draft_tag_names draft_description
income_from_draft today draft categories bank_accounts = do
  default_category ← first_category_id categories
  default_account ← first_visible_account_id bank_accounts
  timestamp ← draft_timestamp today draft
  let amount = draft_amount_dollar draft
  let shared = is_proposed_shared (winner_value draft.sharing_type)
  ok (record {
    timestamp = timestamp;
    amount = amount;
    own_share_amount = winner_or draft.own_share_amount amount;
    payer = winner_or draft.payer "";
    category_id = winner_or draft.category_id default_category;
    account_id = winner_or draft.account_to_id default_account;
    is_shared = shared;
    tag_names = draft_tag_names draft;
    description = draft_description draft;
    companion = when_so shared (winner_value draft.companion);
    parent_transaction_id = winner_value draft.parent_transaction_id;
  })
