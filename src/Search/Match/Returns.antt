-- ===== src/Search/Match/Returns.antt =====
-- Calls of frontend/lib/search/matchers.tsx that do not throw.
use prosper.Prelude.{
  ℕ, ◌≡◌, refl, String, Bool, true, false, Bool-cases, List, [], ◌∷◌, All, inl, inr, Result, ok,
  ◌>>=◌,
}
use prosper.Model.BankAccount.{Bank, BankAccount}
use prosper.Transaction.{
  Transaction, Transfer, personal_expense, third_party_expense, transfer, income, opening_balance,
}
use prosper.Transaction.Accessors.{
  transaction_bank_account, transaction_bank, outgoing_bank_account, incoming_bank_account,
  outgoing_bank, incoming_bank,
}
use prosper.Search.Match.{◌or_else◌}
use prosper.Search.Match.Fields.{Runtime, includes_ignore_case}
use prosper.Search.Match.Choice.{choose}

-- The call does not throw.
abbrev pub Returns {ℓ} : {A : Type ℓ} → Result A → Type ℓ
Returns r = (x : _) × (r ≡ ok x)

pub bind-Returns {ℓ κ} :
    {A : Type ℓ} {B : Type κ} (r : Result A) (f : A → Result B)
    → Returns r
    → ((a : A) → Returns (f a))
    → Returns (r >>= f)
bind-Returns r f (a, e) h = let (b, d) = h a in (b, rw e d)

pub or_else-Returns : (r s : Result Bool) → Returns r → Returns s → Returns (r or_else s)
or_else-Returns r s (true, e) h = (true, rw e refl)
or_else-Returns r s (false, e) (b, d) = (b, rw e d)

pub choose-Returns :
    (run : Runtime) (name : String) (rows : List (List String × Result Bool))
    → All (λ row. Returns row.1) rows
    → Returns (choose run name rows)
unfolding choose
choose-Returns run name [] h = (false, refl)
choose-Returns run name ((options, result) ∷ rest) h =
    elim (Bool-cases (includes_ignore_case run name options)) [
      | inl e ↦ rw e h.0
      | inr e ↦ rw e (choose-Returns run name rest h.1)
    ]

pub outgoing_bank_account_lem :
    (t : Transfer) (accounts : List BankAccount)
    → outgoing_bank_account t accounts ≡ transaction_bank_account t.from_account_id accounts
unfolding outgoing_bank_account transaction_bank_account
outgoing_bank_account_lem t accounts = refl

pub incoming_bank_account_lem :
    (t : Transfer) (accounts : List BankAccount)
    → incoming_bank_account t accounts ≡ transaction_bank_account t.to_account_id accounts
unfolding incoming_bank_account transaction_bank_account
incoming_bank_account_lem t accounts = refl

pub outgoing_bank_lem :
    (t : Transfer) (banks : List Bank) (accounts : List BankAccount)
    → outgoing_bank t banks accounts ≡ transaction_bank t.from_account_id banks accounts
unfolding outgoing_bank transaction_bank
outgoing_bank_lem t banks accounts = refl

pub incoming_bank_lem :
    (t : Transfer) (banks : List Bank) (accounts : List BankAccount)
    → incoming_bank t banks accounts ≡ transaction_bank t.to_account_id banks accounts
unfolding incoming_bank transaction_bank
incoming_bank_lem t banks accounts = refl

-- The accounts that a transaction moves money of.
abbrev pub account_ids_of : Transaction → List ℕ
account_ids_of (personal_expense t) = t.account_id ∷ []
account_ids_of (third_party_expense t) = []
account_ids_of (transfer t) = t.from_account_id ∷ t.to_account_id ∷ []
account_ids_of (income t) = t.account_id ∷ []
account_ids_of (opening_balance t) = t.account_id ∷ []
