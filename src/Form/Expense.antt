-- ===== src/Form/Expense.antt =====
-- frontend/components/txform/expense/defaults.tsx: the values of an expense form that is empty,
-- made from a draft or a transaction, or switched from another type.
pub mod Stored
use prosper.Prelude.{
  ℕ, String, Bool, true, false, Option, none, some, List, [], ◌∷◌, map, ◌==◌, nat_eq, if◌then◌else◌,
  Result, ok, err, ◌>>=◌, no_category,
}
use prosper.Prelude.Int.{ℤ, pos}
use prosper.Category.{Category}
use prosper.Links.{TransactionLink, DebtSettling, debt_settling, refund}
use prosper.Model.BankAccount.{BankAccount, first_visible_account_id}
use prosper.Model.Ledger.Forms.{SharingType, TransactionDraft}
use prosper.Model.Tag.{Tag, Trip}
use prosper.Transaction.{
  Expense, PersonalExpense, ThirdPartyExpense, TransactionCompanion, personal, third_party,
  of_expense, personal_expense, third_party_expense,
}
use prosper.Transaction.Accessors.{transaction_tags, transaction_trip}
use prosper.Transaction.Amounts.{own_share_amount_nanos_ignore_refunds}
use prosper.Form.{
  FormTime, Repayment, ExpenseForm, IncomeForm, TransferForm, date, date_of_epoch, or_default,
}
use prosper.Form.Draft.{
  winner_value, winner_or, draft_timestamp, draft_amount_dollar, draft_tag_names, draft_description,
}

-- `assert(categories.length > 0)`, and `categories[0].id` after it.
unfoldable pub first_category_id : List Category → Result ℕ
first_category_id [] = err no_category
first_category_id (c ∷ _) = ok c.id

abbrev pub empty_with : ℤ → ℕ → ℕ → ExpenseForm Repayment
empty_with today category account = record {
  timestamp = date (some today);
  amount = pos 0;
  own_share_amount = pos 0;
  vendor = "";
  category_id = category;
  account_id = some account;
  tag_names = [];
  sharing_type = SharingType.paid_self_not_shared;
  description = none;
  trip_name = none;
  companion = none;
  payer = none;
  currency = none;
  repayment = none;
}

-- `today` is `startOfDay(new Date())`.
unfoldable pub expense_form_empty :
    ℤ → List Category → List BankAccount → Result (ExpenseForm Repayment)
unfolding first_category_id first_visible_account_id
expense_form_empty today categories bank_accounts = do
  category ← first_category_id categories
  account ← first_visible_account_id bank_accounts
  ok (empty_with today category account)

-- `proposedSharingType ? proposedSharingType : SharingType.PAID_SELF_NOT_SHARED`, where the
-- unspecified type is 0.
abbrev pub proposed_or_not_shared : Option SharingType → SharingType
proposed_or_not_shared none = SharingType.paid_self_not_shared
proposed_or_not_shared (some SharingType.unspecified) = SharingType.paid_self_not_shared
proposed_or_not_shared (some s) = s

abbrev pub is_self_shared : SharingType → Bool
is_self_shared SharingType.paid_self_shared = true
is_self_shared _ = false

abbrev pub is_other_repaid : SharingType → Bool
is_other_repaid SharingType.paid_other_repaid = true
is_other_repaid _ = false

abbrev pub is_paid_other : SharingType → Bool
is_paid_other SharingType.paid_other_owed = true
is_paid_other SharingType.paid_other_repaid = true
is_paid_other _ = false

-- `test ? x : null`
abbrev pub when_so {ℓ} : {A : Type ℓ} → Bool → Option A → Option A
when_so true x = x
when_so false x = none

-- The values for a type of sharing, with the defaults of the category and of the account.
unfoldable pub drafted : SharingType → TransactionDraft → ℕ → ℕ → FormTime → ExpenseForm Repayment
unfolding draft_amount_dollar winner_or winner_value draft_tag_names draft_description
drafted sharing draft default_category default_account timestamp =
    let amount = draft_amount_dollar draft in
    let account = winner_or draft.account_from_id default_account in
    let category = winner_or draft.category_id default_category in
    record {
      timestamp = timestamp;
      amount = amount;
      own_share_amount = winner_or draft.own_share_amount amount;
      vendor = winner_or draft.vendor "";
      category_id = category;
      account_id = if is_paid_other sharing then none else some account;
      tag_names = draft_tag_names draft;
      sharing_type = sharing;
      description = draft_description draft;
      trip_name = winner_value draft.trip_name;
      companion = when_so (is_self_shared sharing) (winner_value draft.companion);
      payer = when_so (is_paid_other sharing) (winner_value draft.payer);
      currency = when_so (is_paid_other sharing) (winner_value draft.currency);
      repayment = when_so (is_other_repaid sharing) (
          some (record {
            timestamp = timestamp;
            account_id = account;
            category_id = winner_or draft.repayment_category_id category;
          }));
    }

unfoldable pub expense_from_draft :
    ℤ → TransactionDraft → List Category → List BankAccount → Result (ExpenseForm Repayment)
unfolding first_category_id first_visible_account_id draft_timestamp winner_value drafted
expense_from_draft today draft categories bank_accounts = do
  default_category ← first_category_id categories
  default_account ← first_visible_account_id bank_accounts
  timestamp ← draft_timestamp today draft
  ok (
      drafted (proposed_or_not_shared (winner_value draft.sharing_type)) draft default_category
        default_account timestamp)

-- `prev.companion ? … : …`, where an empty name counts as none.
abbrev pub shared_if_named : Option String → SharingType
shared_if_named none = SharingType.paid_self_not_shared
shared_if_named (some String.[]) = SharingType.paid_self_not_shared
shared_if_named (some (String.◌∷◌ _ _)) = SharingType.paid_self_shared

unfoldable pub income_to_expense : {R : Type 0} → IncomeForm → ExpenseForm R
income_to_expense prev = record {
  timestamp = prev.timestamp;
  amount = prev.amount;
  own_share_amount = prev.own_share_amount;
  vendor = prev.payer;
  category_id = prev.category_id;
  account_id = some prev.account_id;
  tag_names = prev.tag_names;
  sharing_type = shared_if_named prev.companion;
  description = none;
  trip_name = none;
  companion = prev.companion;
  payer = none;
  currency = none;
  repayment = none;
}

unfoldable pub transfer_to_expense : {R : Type 0} → TransferForm → ExpenseForm R
transfer_to_expense prev = record {
  timestamp = prev.timestamp;
  amount = prev.amount_sent;
  own_share_amount = prev.amount_sent;
  vendor = or_default prev.description "";
  category_id = prev.category_id;
  account_id = some prev.from_account_id;
  tag_names = [];
  sharing_type = SharingType.paid_self_not_shared;
  description = none;
  trip_name = none;
  companion = none;
  payer = none;
  currency = none;
  repayment = none;
}
