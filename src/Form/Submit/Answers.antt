-- ===== src/Form/Submit/Answers.antt =====
-- What `upsertTransaction` of frontend/actions/txform/index.ts answers, and what it sends.
use prosper.Prelude.{◌≡◌, ◌≢◌, String, Option, some, nat_eq}
use prosper.Prelude.Int.{◌≤ℤ◌}
use prosper.Model.Currency.{Currency, find_by_code}
use prosper.Model.Ledger.Forms.{SharingType, ExpenseFormInput, FormInput}

abbrev IsGiven : {A : Type 0} → Option A → Type 0
IsGiven {A = A} o = (a : A) × (o ≡ some a)

-- The currency is one of the list.
abbrev IsKnown : Option String → Type 0
IsKnown code = (s : String) × (c : Currency) × (code ≡ some s) × (find_by_code s ≡ some c)

-- What an expense must have for its sharing type.
abbrev pub IsShareComplete : SharingType → ExpenseFormInput → Type 0
IsShareComplete SharingType.paid_self_not_shared e = IsGiven e.account_id
IsShareComplete SharingType.paid_self_shared e = IsGiven e.account_id × IsGiven e.companion
IsShareComplete SharingType.paid_other_owed e = IsGiven e.payer × IsKnown e.currency
IsShareComplete SharingType.paid_other_repaid e =
    IsGiven e.payer × IsKnown e.currency × IsGiven e.repayment
IsShareComplete SharingType.unspecified e = Unit

-- What the backend can rely on.
abbrev pub IsSound : FormInput → Type 0
IsSound (FormInput.expense e) =
    (e.own_share_nanos ≤ℤ e.amount_nanos) × IsShareComplete e.sharing_type e
IsSound (FormInput.income i) = i.own_share_nanos ≤ℤ i.amount_nanos
IsSound (FormInput.transfer t) = t.from_account_id ≢ t.to_account_id
