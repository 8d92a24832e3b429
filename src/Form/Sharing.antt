-- ===== src/Form/Sharing.antt =====
-- Who paid an expense and who shares it, in the form: useSharingTypeActions.ts of
-- frontend/components/txform/expense, and the buttons that call its actions.
--
-- `setValue` of a field of the repayment makes an object when the repayment is null. An action that
-- throws is one that finds no account.
pub mod Opened
pub mod Consistent
use prosper.Prelude.{
  ◌≡◌, ℕ, String, Bool, true, false, Option, none, some, List, ◌==◌, nat_eq, find, present, Result,
  ok, err, ◌>>=◌,
}
use prosper.Prelude.Int.{ℤ, pos, ◌*ℤ◌}
use prosper.Model.BankAccount.{BankAccount, first_visible_account_id}
use prosper.Model.Ledger.{Timestamp}
use prosper.Model.Ledger.Forms.{SharingType, TransactionDraft}
use prosper.Form.{FormTime, RepaymentFields, ExpenseForm, date_of_epoch, or_default}
use prosper.Form.Draft.{winner_value, winner_timestamp, timestamp_to_date}
use prosper.Form.Validation.{is_paid_self}

-- What the hook reads of the contexts.
pub record Context : Type 0 where
  pub draft : Option TransactionDraft
  pub display_currency_code : String
  pub bank_accounts : List BankAccount

abbrev pub Fields : Type 0
Fields = ExpenseForm RepaymentFields

-- The object that a `setValue` of one of its fields changes.
abbrev pub repayment_object : Option RepaymentFields → RepaymentFields
repayment_object none = record { timestamp = none; category_id = none; account_id = none }
repayment_object (some r) = r

abbrev currency_of : Option BankAccount → Option String
currency_of none = none
currency_of (some a) = a.currency_code

unfoldable pub currency_code_for_account : ℕ → List BankAccount → Option String
unfolding find
currency_code_for_account account_id bank_accounts =
    currency_of (find (λ (a : BankAccount). a.id == account_id) bank_accounts)

-- `draft && amountNanos !== undefined && accountId`: the amount and the account of the draft.
abbrev both {ℓ κ} : {A : Type ℓ} {B : Type κ} → Option A → Option B → Option (A × B)
both none b = none
both (some a) none = none
both (some a) (some b) = some (a, b)

unfoldable pub draft_payment : Option TransactionDraft → Option (ℤ × ℕ)
unfolding winner_value
draft_payment none = none
draft_payment (some draft) =
    both (winner_value draft.amount) (present (winner_value draft.account_from_id))

-- The date that the draft proposes, if it does.
unfoldable pub draft_date : Option TransactionDraft → Option FormTime
unfolding winner_timestamp timestamp_to_date
draft_date none = none
draft_date (some draft) = elim (winner_timestamp draft.timestamp) [
  | none ↦ none
  | some ts ↦ elim (timestamp_to_date (some ts)) [ ok d ↦ some d | err e ↦ none ]
]

-- `setValue` of the time, skipped when there is none.
abbrev set_time : Option FormTime → Option FormTime → Option FormTime
set_time none old = old
set_time (some t) old = some t

-- The two branches of `setPaidOther`.
unfoldable pub paid_other_by : Context → ℕ → Option (ℤ × ℕ) → Fields → Fields
unfolding currency_code_for_account draft_date
paid_other_by c category_id none f = record f {
  sharing_type = SharingType.paid_other_owed;
  currency = some c.display_currency_code;
}
paid_other_by c category_id (some (amount_nanos, account_id)) f = record f {
  sharing_type = SharingType.paid_other_repaid;
  currency = currency_code_for_account account_id c.bank_accounts;
  amount = amount_nanos *ℤ pos 2;
  own_share_amount = amount_nanos;
  repayment = some (record {
    account_id = some account_id;
    timestamp = set_time (draft_date c.draft) (repayment_object f.repayment).timestamp;
    category_id = some category_id;
  });
}

-- `(draft ? winnerString(…) : undefined) ?? ''`
abbrev proposed_payer : Option TransactionDraft → String
unfolding winner_value
proposed_payer none = ""
proposed_payer (some draft) = or_default (winner_value draft.payer) ""

abbrev proposed_companion : Option TransactionDraft → String
unfolding winner_value
proposed_companion none = ""
proposed_companion (some draft) = or_default (winner_value draft.companion) ""

-- `categoryId` is the category of the form when the hook was called.
unfoldable pub set_paid_other : Context → ℕ → Fields → Fields
unfolding draft_payment paid_other_by proposed_payer
set_paid_other c category_id f = record (paid_other_by c category_id (draft_payment c.draft) f) {
  payer = some (proposed_payer c.draft);
}

-- `getValues('expense.accountId') ?? firstVisibleAccountId(bankAccounts)`
abbrev pub account_or_first : Option ℕ → List BankAccount → Result ℕ
unfolding first_visible_account_id
account_or_first none bank_accounts = first_visible_account_id bank_accounts
account_or_first (some id) bank_accounts = ok id

unfoldable pub set_paid_self : Context → Fields → Result Fields
unfolding account_or_first
set_paid_self c f = do
  account ← account_or_first f.account_id c.bank_accounts
  ok (record f {
    sharing_type = SharingType.paid_self_not_shared;
    account_id = some account;
    repayment = none;
    companion = none;
  })

unfoldable pub set_already_repaid : Context → ℕ → Fields → Result Fields
unfolding first_visible_account_id
set_already_repaid c category_id f = do
  account ← first_visible_account_id c.bank_accounts
  ok (record f {
    sharing_type = SharingType.paid_other_repaid;
    repayment = some (record {
      account_id = some account;
      category_id = some category_id;
      timestamp = some f.timestamp;
    });
  })

unfoldable pub set_owe_money : Fields → Fields
set_owe_money f = record f {
  sharing_type = SharingType.paid_other_owed;
  account_id = none;
  repayment = none;
}

-- `toggleSplitTransaction`, by the type of sharing before it.
unfoldable pub toggle_from : SharingType → Context → Fields → Fields
unfolding proposed_companion
toggle_from SharingType.paid_self_shared c f = record f {
  sharing_type = SharingType.paid_self_not_shared;
  companion = none;
}
toggle_from SharingType.paid_self_not_shared c f = record f {
  sharing_type = SharingType.paid_self_shared;
  companion = some (proposed_companion c.draft);
}
toggle_from _ c f = f

unfoldable pub toggle_split_transaction : Context → Fields → Fields
unfolding toggle_from
toggle_split_transaction c f = toggle_from f.sharing_type c f

-- A button is there only for the types of sharing for which its component renders it; an edit of
-- another field can happen at any time.
pub data Step (c : Context) : Fields → Fields → Type 0 where
  paid_other_pressed :
      (category_id : ℕ) (f : Fields)
      → is_paid_self f.sharing_type ≡ true
      → Step c f (set_paid_other c category_id f)
  paid_self_pressed :
      (f g : Fields) → is_paid_self f.sharing_type ≡ false → set_paid_self c f ≡ ok g → Step c f g
  already_repaid_pressed :
      (category_id : ℕ) (f g : Fields)
      → f.sharing_type ≡ SharingType.paid_other_owed
      → set_already_repaid c category_id f ≡ ok g
      → Step c f g
  owe_money_pressed :
      (f : Fields) → f.sharing_type ≡ SharingType.paid_other_repaid → Step c f (set_owe_money f)
  split_toggled :
      (f : Fields) → is_paid_self f.sharing_type ≡ true → Step c f (toggle_split_transaction c f)
  account_picked :
      (id : ℕ) (f : Fields)
      → is_paid_self f.sharing_type ≡ true
      → Step c f (record f { account_id = some id })
  repayment_edited :
      (account category : ℕ) (time : FormTime) (f : Fields)
      → f.sharing_type ≡ SharingType.paid_other_repaid
      → Step c f (record f {
        repayment = some (record {
          account_id = some account;
          category_id = some category;
          timestamp = some time;
        });
      })
  fields_edited :
      (time : FormTime) (amount own_share_amount : ℤ) (category_id : ℕ) (vendor : String)
      (companion payer currency : Option String) (f : Fields)
      → Step c f (record f {
        timestamp = time;
        amount = amount;
        own_share_amount = own_share_amount;
        category_id = category_id;
        vendor = vendor;
        companion = companion;
        payer = payer;
        currency = currency;
      })
