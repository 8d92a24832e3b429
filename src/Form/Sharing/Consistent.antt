-- ===== src/Form/Sharing/Consistent.antt =====
-- The expense forms that can be reached with the buttons of frontend/components/txform/expense,
-- from any form that the program opens.
use prosper.Prelude.{
  ◌≡◌, refl, ℕ, true, Option, none, some, ok, >>=-eq-ok, ok-injective, subst, sym,
}
use prosper.Prelude.Int.{ℤ}
use prosper.Model.BankAccount.{first_visible_account_id}
use prosper.Model.Ledger.Forms.{SharingType}
use prosper.Form.{FormTime, Repayment, RepaymentFields, ExpenseForm}
use prosper.Form.Validation.{is_paid_self}
use prosper.Form.Sharing.{
  account_or_first, Context, Fields, Step, set_paid_other, set_paid_self, set_already_repaid,
  set_owe_money, toggle_split_transaction, toggle_from, paid_other_by, draft_payment, draft_date,
}
use prosper.Form.Sharing.Opened.{
  repayment_fields, fields_of, Opened, IsConsistent, Consistent, Opened-Consistent,
}

pub data Reachable (c : Context) : Fields → Type 0 where
  opened : (e : ExpenseForm Repayment) → Opened e → Reachable c (fields_of e)
  step : (f g : Fields) → Reachable c f → Step c f g → Reachable c g

no_repayment :
    (s : SharingType) (a : Option ℕ) (r : Option RepaymentFields)
    → is_paid_self s ≡ true
    → IsConsistent s a r
    → r ≡ none
no_repayment SharingType.paid_self_not_shared a r h k = k.1
no_repayment SharingType.paid_self_shared a r h k = k.1
no_repayment SharingType.paid_other_owed a r h k = k
no_repayment SharingType.paid_other_repaid a r h k = cc
no_repayment SharingType.unspecified a r h k = absurd k

toggle_from-Consistent :
    (c : Context) (s : SharingType) (f : Fields)
    → is_paid_self s ≡ true
    → IsConsistent s f.account_id f.repayment
    → Consistent (toggle_from s c f)
unfolding toggle_from
toggle_from-Consistent c SharingType.paid_self_not_shared f h k = k
toggle_from-Consistent c SharingType.paid_self_shared f h k = k
toggle_from-Consistent c SharingType.paid_other_owed f h k = cc
toggle_from-Consistent c SharingType.paid_other_repaid f h k = cc
toggle_from-Consistent c SharingType.unspecified f h k = absurd k

any_account :
    (s : SharingType) (a : Option ℕ) (r : Option RepaymentFields) (id : ℕ)
    → is_paid_self s ≡ true
    → IsConsistent s a r
    → IsConsistent s (some id) r
any_account SharingType.paid_self_not_shared a r id h k = ((id, refl), k.1)
any_account SharingType.paid_self_shared a r id h k = ((id, refl), k.1)
any_account SharingType.paid_other_owed a r id h k = k
any_account SharingType.paid_other_repaid a r id h k = k
any_account SharingType.unspecified a r id h k = k

self_paid : (c : Context) (f g : Fields) → set_paid_self c f ≡ ok g → Consistent g
unfolding set_paid_self
self_paid c f g h =
    let (account, p, q) =
      >>=-eq-ok (account_or_first f.account_id c.bank_accounts)
        (λ account. ok (record f {
          sharing_type = SharingType.paid_self_not_shared;
          account_id = some account;
          repayment = none;
          companion = none;
        }))
        h in
    subst Consistent (ok-injective q) ((account, refl), refl)

already_repaid :
    (c : Context) (category_id : ℕ) (f g : Fields)
    → set_already_repaid c category_id f ≡ ok g
    → Consistent g
unfolding set_already_repaid repayment_fields
already_repaid c category_id f g h =
    let (account, p, q) =
      >>=-eq-ok (first_visible_account_id c.bank_accounts)
        (λ account. ok (record f {
          sharing_type = SharingType.paid_other_repaid;
          repayment = some (record {
            account_id = some account;
            category_id = some category_id;
            timestamp = some f.timestamp;
          });
        }))
        h in
    subst Consistent (ok-injective q)
      (record { timestamp = f.timestamp; category_id = category_id; account_id = account }, refl)

module _ (c : Context)
    (dated : (p : ℤ × ℕ)
      → draft_payment c.draft ≡ some p
      → (t : FormTime) × (draft_date c.draft ≡ some t)) where
  other_paid :
      (category_id : ℕ) (f : Fields) (p : Option (ℤ × ℕ))
      → draft_payment c.draft ≡ p
      → f.repayment ≡ none
      → Consistent (paid_other_by c category_id p f)
  unfolding paid_other_by repayment_fields
  other_paid category_id f none h k = k
  other_paid category_id f (some (amount, account)) h k =
      let (t, e) = dated (amount, account) h in
      (record { timestamp = t; category_id = category_id; account_id = account }, rw e refl)

  Step-Consistent : (f g : Fields) → Step c f g → Consistent f → Consistent g
  unfolding set_paid_other set_owe_money toggle_split_transaction repayment_fields
  Step-Consistent _ _ (Step.paid_other_pressed category_id f h) k =
      other_paid category_id f (draft_payment c.draft) refl
        (no_repayment f.sharing_type f.account_id f.repayment h k)
  Step-Consistent _ _ (Step.paid_self_pressed f g h p) k = self_paid c f g p
  Step-Consistent _ _ (Step.already_repaid_pressed category_id f g h p) k =
      already_repaid c category_id f g p
  Step-Consistent _ _ (Step.owe_money_pressed f h) k = refl
  Step-Consistent _ _ (Step.split_toggled f h) k = toggle_from-Consistent c f.sharing_type f h k
  Step-Consistent _ _ (Step.account_picked id f h) k =
      any_account f.sharing_type f.account_id f.repayment id h k
  Step-Consistent _ _ (Step.repayment_edited account category time f h) k =
      subst
        (λ s. IsConsistent s f.account_id (
          some (record {
            timestamp = some time;
            category_id = some category;
            account_id = some account;
          })))
        (sym h) (record { timestamp = time; category_id = category; account_id = account }, refl)
  Step-Consistent _ _
        (Step.fields_edited time amount own_share_amount category_id vendor companion payer currency
          f)
        k =
      k

  -- Whatever way the form was opened, and whatever was pressed and edited in it, an expense that the
  -- user paid has an account and no repayment, a debt has no repayment, and one that was repaid has
  -- a repayment with a time, a category and an account; when a draft with an amount and an account
  -- has a date too.
  pub Reachable-IsConsistent :
      (f : Fields) → Reachable c f → IsConsistent f.sharing_type f.account_id f.repayment
  Reachable-IsConsistent _ (opened e o) = Opened-Consistent e o
  Reachable-IsConsistent _ (step f g r s) = Step-Consistent f g s (Reachable-IsConsistent f r)
