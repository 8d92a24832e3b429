-- ===== src/Form/Sharing/Opened.antt =====
-- The ways to open an expense form of frontend/components/txform, and what holds of each: its
-- account and its repayment fit who paid.
use prosper.Prelude.{
  ◌≡◌, if◌then◌else◌, refl, ℕ, String, Bool, true, false, Option, none, some, List, ok, ◌>>=◌,
  >>=-eq-ok, ok-injective, subst,
}
use prosper.Prelude.Int.{ℤ}
use prosper.Category.{Category}
use prosper.Links.{TransactionLink}
use prosper.Model.BankAccount.{BankAccount, first_visible_account_id}
use prosper.Model.Ledger.Forms.{SharingType, TransactionDraft}
use prosper.Model.Tag.{Tag, Trip}
use prosper.Transaction.{
  Expense, ThirdPartyExpense, personal, third_party, personal_expense, third_party_expense,
}
use prosper.Form.{FormTime, Repayment, RepaymentFields, ExpenseForm, IncomeForm, TransferForm}
use prosper.Form.Expense.{
  expense_form_empty, expense_from_draft, income_to_expense, transfer_to_expense, drafted,
  empty_with, first_category_id, proposed_or_not_shared, shared_if_named,
}
use prosper.Form.Expense.Stored.{
  expense_from_transaction, third_party_with, personal_with, expense_from_personal,
  expense_from_third_party, has_companion, find_repayment,
}
use prosper.Form.Draft.{winner_value, draft_timestamp}
use prosper.Transaction.Accessors.{transaction_tags}
use prosper.Form.Sharing.{Fields}

-- The values of a form that has just been opened, as the fields to edit.
unfoldable pub repayment_fields : Option Repayment → Option RepaymentFields
repayment_fields none = none
repayment_fields (some r) = some (record {
  timestamp = some r.timestamp;
  category_id = some r.category_id;
  account_id = some r.account_id;
})

unfoldable pub fields_of : ExpenseForm Repayment → Fields
unfolding repayment_fields
fields_of e = record {
  timestamp = e.timestamp;
  amount = e.amount;
  own_share_amount = e.own_share_amount;
  account_id = e.account_id;
  category_id = e.category_id;
  vendor = e.vendor;
  companion = e.companion;
  payer = e.payer;
  currency = e.currency;
  sharing_type = e.sharing_type;
  repayment = repayment_fields e.repayment;
  tag_names = e.tag_names;
  description = e.description;
  trip_name = e.trip_name;
}

-- The ways to an expense form: a new one, a draft, a transaction, or another type of form.
pub data Opened : ExpenseForm Repayment → Type 0 where
  opened_empty :
      (today : ℤ) (categories : List Category) (accounts : List BankAccount)
      (e : ExpenseForm Repayment)
      → expense_form_empty today categories accounts ≡ ok e
      → Opened e
  opened_draft :
      (today : ℤ) (draft : TransactionDraft) (categories : List Category)
      (accounts : List BankAccount) (e : ExpenseForm Repayment)
      → expense_from_draft today draft categories accounts ≡ ok e
      → Opened e
  opened_transaction :
      (t : Expense) (tags : List Tag) (trips : List Trip) (links : List TransactionLink)
      (e : ExpenseForm Repayment)
      → expense_from_transaction t tags trips links ≡ ok e
      → Opened e
  opened_income : (i : IncomeForm) → Opened (income_to_expense i)
  opened_transfer : (t : TransferForm) → Opened (transfer_to_expense t)

abbrev pub IsComplete : Option RepaymentFields → Type 0
IsComplete o = (r : Repayment) × (o ≡ repayment_fields (some r))

-- What a type of sharing asks of the account and the repayment.
abbrev pub IsConsistent : SharingType → Option ℕ → Option RepaymentFields → Type 0
IsConsistent SharingType.paid_self_not_shared account repayment =
    ((id : ℕ) × (account ≡ some id)) × (repayment ≡ none)
IsConsistent SharingType.paid_self_shared account repayment =
    ((id : ℕ) × (account ≡ some id)) × (repayment ≡ none)
IsConsistent SharingType.paid_other_owed account repayment = repayment ≡ none
IsConsistent SharingType.paid_other_repaid account repayment = IsComplete repayment
IsConsistent SharingType.unspecified account repayment = ⊥

abbrev pub Consistent : Fields → Type 0
Consistent f = IsConsistent f.sharing_type f.account_id f.repayment

from_draft :
    (o : Option SharingType) (draft : TransactionDraft) (category account : ℕ) (t : FormTime)
    → Consistent (fields_of (drafted (proposed_or_not_shared o) draft category account t))
unfolding fields_of drafted
from_draft none draft category account t = ((_, refl), refl)
from_draft (some SharingType.unspecified) draft category account t = ((_, refl), refl)
from_draft (some SharingType.paid_self_not_shared) draft category account t = ((_, refl), refl)
from_draft (some SharingType.paid_self_shared) draft category account t = ((_, refl), refl)
from_draft (some SharingType.paid_other_owed) draft category account t = refl
from_draft (some SharingType.paid_other_repaid) draft category account t = (_, refl)

by_companion :
    (b : Bool) (id : ℕ)
    → IsConsistent
        (if b then SharingType.paid_self_shared else SharingType.paid_self_not_shared)
        (some id)
        none
by_companion true id = ((id, refl), refl)
by_companion false id = ((id, refl), refl)

by_name : (o : Option String) (id : ℕ) → IsConsistent (shared_if_named o) (some id) none
by_name none id = ((id, refl), refl)
by_name (some String.[]) id = ((id, refl), refl)
by_name (some (String.◌∷◌ _ _)) id = ((id, refl), refl)

from_third_party :
    (t : ThirdPartyExpense) (trips : List Trip) (r : Option Repayment) (found : List Tag)
    → Consistent (fields_of (third_party_with t trips r found))
unfolding fields_of third_party_with repayment_fields
from_third_party t trips none found = refl
from_third_party t trips (some r) found = (r, refl)

from_transaction :
    (t : Expense) (tags : List Tag) (trips : List Trip) (links : List TransactionLink)
    (e : ExpenseForm Repayment)
    → expense_from_transaction t tags trips links ≡ ok e
    → Consistent (fields_of e)
unfolding expense_from_transaction expense_from_personal expense_from_third_party fields_of
    personal_with repayment_fields
from_transaction (personal t) tags trips links e h =
    let (found, p, q) =
      >>=-eq-ok (transaction_tags (personal_expense t) tags)
        (λ found. ok (personal_with t trips found)) h in
    subst (λ e. Consistent (fields_of e)) (ok-injective q)
      (by_companion (has_companion t.companions) t.account_id)
from_transaction (third_party t) tags trips links e h =
    let (found, p, q) =
      >>=-eq-ok (transaction_tags (third_party_expense t) tags)
        (λ found. ok (third_party_with t trips (find_repayment t.id links) found)) h in
    subst (λ e. Consistent (fields_of e)) (ok-injective q)
      (from_third_party t trips (find_repayment t.id links) found)

pub Opened-Consistent : (e : ExpenseForm Repayment) → Opened e → Consistent (fields_of e)
unfolding fields_of expense_form_empty expense_from_draft income_to_expense transfer_to_expense
    repayment_fields
Opened-Consistent e (opened_empty today categories accounts _ h) =
    let (category, p, q) =
      >>=-eq-ok (first_category_id categories)
        (λ category.
          first_visible_account_id accounts >>= λ account. ok (empty_with today category account))
        h in
    let (account, p', q') =
      >>=-eq-ok (first_visible_account_id accounts)
        (λ account. ok (empty_with today category account)) q in
    subst (λ e. Consistent (fields_of e)) (ok-injective q') ((account, refl), refl)
Opened-Consistent e (opened_draft today draft categories accounts _ h) =
    let s = proposed_or_not_shared (winner_value draft.sharing_type) in
    let (category, p, q) =
      >>=-eq-ok (first_category_id categories)
        (λ category. first_visible_account_id accounts >>= λ account.
          draft_timestamp today draft >>= λ t. ok (drafted s draft category account t))
        h in
    let (account, p', q') =
      >>=-eq-ok (first_visible_account_id accounts)
        (λ account. draft_timestamp today draft >>= λ t. ok (drafted s draft category account t))
        q in
    let (t, p'', q'') =
      >>=-eq-ok (draft_timestamp today draft) (λ t. ok (drafted s draft category account t)) q' in
    subst (λ e. Consistent (fields_of e)) (ok-injective q'')
      (from_draft (winner_value draft.sharing_type) draft category account t)
Opened-Consistent e (opened_transaction t tags trips links _ h) =
    from_transaction t tags trips links e h
Opened-Consistent _ (opened_income i) = by_name i.companion i.account_id
Opened-Consistent _ (opened_transfer t) = ((t.from_account_id, refl), refl)
