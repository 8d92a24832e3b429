-- ===== src/Form/Transfer.antt =====
-- frontend/components/txform/transfer/defaults.tsx: the values of a transfer form that is made
-- from a draft or a transaction, or switched from another type.
use prosper.Prelude.{some, List, Result, ok, ◌>>=◌}
use prosper.Prelude.Int.{ℤ}
use prosper.Category.{Category}
use prosper.Model.BankAccount.{BankAccount, first_visible_account_id}
use prosper.Model.Ledger.Forms.{TransactionDraft}
use prosper.Model.Tag.{Tag}
use prosper.Transaction.{Transfer, transfer}
use prosper.Transaction.Accessors.{transaction_tags}
use prosper.Form.{ExpenseForm, IncomeForm, TransferForm, date_of_epoch, or_default}
use prosper.Form.Draft.{
  winner_value, winner_or, draft_timestamp, draft_amount_dollar, draft_tag_names, draft_description,
}
use prosper.Form.Expense.{first_category_id}
use prosper.Form.Expense.Stored.{names_of}
use prosper.Form.Income.{first_account_id}

unfoldable pub expense_to_transfer :
    {R : Type 0} → ExpenseForm R → List BankAccount → Result TransferForm
unfolding first_account_id
expense_to_transfer prev bank_accounts = do
  account ← first_account_id bank_accounts
  ok (record {
    timestamp = prev.timestamp;
    amount_sent = prev.amount;
    amount_received = prev.amount;
    category_id = prev.category_id;
    from_account_id = or_default prev.account_id account;
    to_account_id = or_default prev.account_id account;
    description = some prev.vendor;
    tag_names = prev.tag_names;
  })

unfoldable pub income_to_transfer : IncomeForm → TransferForm
income_to_transfer prev = record {
  timestamp = prev.timestamp;
  amount_sent = prev.amount;
  amount_received = prev.amount;
  category_id = prev.category_id;
  from_account_id = prev.account_id;
  to_account_id = prev.account_id;
  description = some prev.payer;
  tag_names = prev.tag_names;
}

-- `today` is `startOfDay(new Date())`.
unfoldable pub transfer_from_draft :
    ℤ → TransactionDraft → List Category → List BankAccount → Result TransferForm
unfolding first_category_id first_visible_account_id draft_timestamp draft_amount_dollar winner_or
    winner_value draft_tag_names draft_description
transfer_from_draft today draft categories bank_accounts = do
  default_category ← first_category_id categories
  default_account ← first_visible_account_id bank_accounts
  timestamp ← draft_timestamp today draft
  let amount_sent = draft_amount_dollar draft
  ok (record {
    timestamp = timestamp;
    amount_sent = amount_sent;
    amount_received = winner_or draft.amount_received amount_sent;
    description = draft_description draft;
    category_id = winner_or draft.category_id default_category;
    from_account_id = winner_or draft.account_from_id default_account;
    to_account_id = winner_or draft.account_to_id default_account;
    tag_names = draft_tag_names draft;
  })

-- The values, with the tags that were found.
unfoldable pub transfer_with : Transfer → List Tag → TransferForm
transfer_with t tags = record {
  timestamp = date_of_epoch t.timestamp_epoch;
  amount_sent = t.sent_amount_nanos;
  amount_received = t.received_amount_nanos;
  description = some t.note;
  category_id = t.category_id;
  from_account_id = t.from_account_id;
  to_account_id = t.to_account_id;
  tag_names = names_of tags;
}

unfoldable pub transfer_from_transaction : Transfer → List Tag → Result TransferForm
unfolding transaction_tags transfer_with
transfer_from_transaction t all_tags = do
  tags ← transaction_tags (transfer t) all_tags
  ok (transfer_with t tags)
