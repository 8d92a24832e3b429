-- ===== src/Balances/Agreement.antt =====
-- The balances of frontend/lib/model/balances.ts against the ledger: what a converted transaction
-- does to an account is what its asset lines say.
use prosper.Prelude.{
  ℕ, ◌≡◌, refl, ◌∙◌, Bool, Bool-cases, Option-cases, ◌⊎◌, inl, inr, Result-cases, >>=-eq-ok,
  ok-injective, none, some, List, [], ◌∷◌, arith, find, keep, ok, length,
}
use prosper.Prelude.Int.{ℤ, pos, ◌+ℤ◌, neg_ℤ, int_laws, +ℤ_zero, zero_+ℤ}
use prosper.Model.Ledger.{EntryLine, LedgerAccount, PbTransaction, TransactionType}
use prosper.Transaction.{
  Transaction, Income, PersonalExpense, Transfer, OpeningBalance, personal_expense, transfer,
  income, opening_balance,
}
use prosper.Transaction.FromDb.{
  Accounts, line_is, line_is_asset, bank_account_of, is_out, is_in, convert, income_from_db,
  personal_expense_from_db, third_party_expense_from_db, transfer_from_db, opening_balance_from_db,
  asset_lines_or_throw, single_line, accounts_by_id, transaction_model_from_db,
}
use prosper.Transaction.FromDb.Signs.{transfer-IsTransferOf}
use prosper.Balances.Effects.{at_account, delta, opening}

-- What the lines put on the ledger accounts of the bank account `a`.
abbrev pub lines_on : Accounts → List EntryLine → ℕ → ℤ
lines_on accounts [] a = pos 0
lines_on accounts (l ∷ lines) a =
    elim (bank_account_of accounts l) [ none ↦ pos 0 | some b ↦ at_account b l.amount_nanos a ]
    +ℤ lines_on accounts lines a

abbrev pub asset_lines : Accounts → PbTransaction → List EntryLine
asset_lines accounts tx = keep (line_is_asset accounts) tx.lines

-- How many asset lines a transaction of each type has when it is well formed.
abbrev pub asset_line_number : TransactionType → ℕ
asset_line_number TransactionType.transfer = 2
asset_line_number TransactionType.third_party_expense = 0
asset_line_number _ = 1

nil_of_length : (xs : List EntryLine) → length xs ≡ 0 → xs ≡ []
nil_of_length [] h = refl
nil_of_length (x ∷ xs) h = absurd (omega arith)

single_asset :
    (p : EntryLine → Bool) (lines : List EntryLine) (l : EntryLine)
    → length (keep p lines) ≡ 1
    → find p lines ≡ some l
    → keep p lines ≡ l ∷ []
unfolding keep find
single_asset p [] l h e = cc
single_asset p (k ∷ lines) l h e = elim (Bool-cases (p k)) [
  | inl y ↦
      let rest : keep p lines ≡ [] = nil_of_length (keep p lines) (omega (arith, rw y at h)) in
      rw (y, rest) (cc (rw y at e))
  | inr n ↦ rw n (single_asset p lines l (rw n at h) (rw n at e))
]

income_agrees :
    (tx : PbTransaction) (accounts : Accounts) (t : Income) (a : ℕ)
    → length (asset_lines accounts tx) ≡ 1
    → income_from_db tx accounts ≡ ok t
    → delta (income t) a ≡ lines_on accounts (asset_lines accounts tx) a
unfolding income_from_db
income_agrees tx accounts t a one h = elim (Option-cases (find (line_is_asset accounts) tx.lines)) [
  | inl e ↦ absurd (ground arith)
  | inr (l, e) ↦
      let found : bank_account_of accounts l ≡ some t.account_id = ground arith in
      let amount : t.amount_nanos ≡ l.amount_nanos = ground arith in
      rw (single_asset (line_is_asset accounts) tx.lines l one e, found, amount) (omega int_laws)
]

expense_agrees :
    (tx : PbTransaction) (accounts : Accounts) (t : PersonalExpense) (a : ℕ)
    → length (asset_lines accounts tx) ≡ 1
    → personal_expense_from_db tx accounts ≡ ok t
    → delta (personal_expense t) a ≡ lines_on accounts (asset_lines accounts tx) a
unfolding personal_expense_from_db
expense_agrees tx accounts t a one h =
    elim (Option-cases (find (line_is_asset accounts) tx.lines)) [
      | inl e ↦ absurd (ground arith)
      | inr (l, e) ↦
          let found : bank_account_of accounts l ≡ some t.account_id = ground arith in
          let amount : t.amount_nanos ≡ neg_ℤ l.amount_nanos = ground arith in
          let back : neg_ℤ t.amount_nanos ≡ l.amount_nanos = rw amount (omega int_laws) in
          rw (single_asset (line_is_asset accounts) tx.lines l one e, found, back) (omega int_laws)
    ]

out_and_in :
    (lines : List EntryLine) (o i : EntryLine)
    → length lines ≡ 2
    → find is_out lines ≡ some o
    → find is_in lines ≡ some i
    → (lines ≡ o ∷ i ∷ []) ⊎ (lines ≡ i ∷ o ∷ [])
unfolding find
out_and_in (l ∷ m ∷ []) o i n e f = ground arith
out_and_in lines o i n e f = absurd (omega arith)

transfer_agrees :
    (tx : PbTransaction) (accounts : Accounts) (t : Transfer) (a : ℕ)
    → length (asset_lines accounts tx) ≡ 2
    → transfer_from_db tx accounts ≡ ok t
    → delta (transfer t) a ≡ lines_on accounts (asset_lines accounts tx) a
transfer_agrees tx accounts t a two h =
    let r = transfer-IsTransferOf tx accounts t h in
    let back : neg_ℤ t.sent_amount_nanos ≡ r.out_line.amount_nanos = rw r.sent (omega int_laws) in
    elim (out_and_in (asset_lines accounts tx) r.out_line r.in_line two r.out_found r.in_found) [
      | inl e ↦ rw (e, r.from_bank, r.to_bank, back, r.received) (omega int_laws)
      | inr e ↦ rw (e, r.from_bank, r.to_bank, back, r.received) (omega int_laws)
    ]

asset_lines_or_throw-keep :
    (accounts : Accounts) (lines ls : List EntryLine)
    → asset_lines_or_throw accounts lines ≡ ok ls
    → ls ≡ keep (line_is_asset accounts) lines
unfolding asset_lines_or_throw keep line_is
asset_lines_or_throw-keep accounts [] ls h = ground arith
asset_lines_or_throw-keep accounts (l ∷ lines) ls h =
    elim (Result-cases (asset_lines_or_throw accounts lines)) [
      | inl (e, thrown) ↦ absurd (ground arith)
      | inr (rest, kept) ↦ ground (arith, asset_lines_or_throw-keep accounts lines rest kept)
    ]

opening_agrees :
    (tx : PbTransaction) (accounts : Accounts) (t : OpeningBalance) (a : ℕ)
    → opening_balance_from_db tx accounts ≡ ok t
    → opening (opening_balance t) a ≡ lines_on accounts (asset_lines accounts tx) a
unfolding opening_balance_from_db single_line
opening_agrees tx accounts t a h = elim (Result-cases (asset_lines_or_throw accounts tx.lines)) [
  | inl (e, thrown) ↦ absurd (ground arith)
  | inr ([], kept) ↦ absurd (ground arith)
  | inr (l ∷ m ∷ ls, kept) ↦ absurd (ground arith)
  | inr (l ∷ [], kept) ↦
      let found : bank_account_of accounts l ≡ some t.account_id = ground arith in
      let amount : t.amount_nanos ≡ l.amount_nanos = ground arith in
      rw (← asset_lines_or_throw-keep accounts tx.lines (l ∷ []) kept, found, amount)
        (omega int_laws)
]

-- The asset lines of a transaction are as many as its type has when it is well formed.
abbrev pub IsWellFormed : Accounts → PbTransaction → Type 0
IsWellFormed accounts tx = length (asset_lines accounts tx) ≡ asset_line_number tx.type

agrees :
    (type : TransactionType) (tx : PbTransaction) (accounts : Accounts) (t : Transaction) (a : ℕ)
    → length (asset_lines accounts tx) ≡ asset_line_number type
    → convert type tx accounts ≡ ok t
    → delta t a +ℤ opening t a ≡ lines_on accounts (asset_lines accounts tx) a
unfolding convert
agrees TransactionType.income tx accounts t a n h =
    let (u, e, f) = >>=-eq-ok (income_from_db tx accounts) _ h in
    rw (← ok-injective f) (+ℤ_zero _ ∙ income_agrees tx accounts u a n e)
agrees TransactionType.expense tx accounts t a n h =
    let (u, e, f) = >>=-eq-ok (personal_expense_from_db tx accounts) _ h in
    rw (← ok-injective f) (+ℤ_zero _ ∙ expense_agrees tx accounts u a n e)
agrees TransactionType.transfer tx accounts t a n h =
    let (u, e, f) = >>=-eq-ok (transfer_from_db tx accounts) _ h in
    rw (← ok-injective f) (+ℤ_zero _ ∙ transfer_agrees tx accounts u a n e)
agrees TransactionType.third_party_expense tx accounts t a n h =
    let (u, e, f) = >>=-eq-ok (third_party_expense_from_db tx accounts) _ h in
    rw (← ok-injective f, nil_of_length (asset_lines accounts tx) n) (+ℤ_zero (pos 0))
agrees TransactionType.opening_balance tx accounts t a n h =
    let (u, e, f) = >>=-eq-ok (opening_balance_from_db tx accounts) _ h in
    rw (← ok-injective f) (zero_+ℤ _ ∙ opening_agrees tx accounts u a e)
agrees TransactionType.unspecified tx accounts t a n h = cc

-- Whatever its type, a transaction that is converted moves each bank account by the amounts of
-- its asset lines on that account, if it has as many asset lines as its type wants: two for a
-- transfer, none for an expense that others paid, and one for the rest.
pub transaction_model_from_db_agrees :
    (tx : PbTransaction) (ledger_accounts : List LedgerAccount) (t : Transaction) (a : ℕ)
    → IsWellFormed (accounts_by_id ledger_accounts) tx
    → transaction_model_from_db tx ledger_accounts ≡ ok t
    → delta t a +ℤ opening t a
      ≡ lines_on
          (accounts_by_id ledger_accounts)
          (asset_lines (accounts_by_id ledger_accounts) tx)
          a
unfolding transaction_model_from_db
transaction_model_from_db_agrees tx ledger_accounts t a w h =
    agrees tx.type tx (accounts_by_id ledger_accounts) t a w h
