-- ===== src/Transaction/FromDb/Signs.antt =====
-- The signs and the accounts that `transferFromDB` of frontend/lib/model/transaction/Transfer.tsx
-- gives.
use prosper.Prelude.{◌≡◌, true, Option-cases, inl, inr, some, arith, find, keep, find_passes, ok}
use prosper.Prelude.Int.{ℤ, pos, neg_ℤ, ◌≤ℤ◌, ltb_ℤ}
use prosper.Model.Ledger.{EntryLine, PbTransaction}
use prosper.Transaction.{Transfer}
use prosper.Transaction.FromDb.{
  Accounts, line_is_asset, bank_account_of, is_out, is_in, transfer_from_db,
}

-- What a successful conversion has found: an outgoing and an incoming line among the asset lines.
pub record IsTransferOf (tx : PbTransaction) (accounts : Accounts) (t : Transfer) : Type 0 where
  pub out_line : EntryLine
  pub in_line : EntryLine
  pub out_found : find is_out (keep (line_is_asset accounts) tx.lines) ≡ some out_line
  pub in_found : find is_in (keep (line_is_asset accounts) tx.lines) ≡ some in_line
  pub from_bank : bank_account_of accounts out_line ≡ some t.from_account_id
  pub to_bank : bank_account_of accounts in_line ≡ some t.to_account_id
  pub sent : t.sent_amount_nanos ≡ neg_ℤ out_line.amount_nanos
  pub received : t.received_amount_nanos ≡ in_line.amount_nanos

positive_of_out : (n : ℤ) → ltb_ℤ n (pos 0) ≡ true → pos 1 ≤ℤ neg_ℤ n
unfolding neg_ℤ
positive_of_out n h = ground arith

positive_of_in : (n : ℤ) → ltb_ℤ (pos 0) n ≡ true → pos 1 ≤ℤ n
positive_of_in n h = ground arith

pub transfer-IsTransferOf :
    (tx : PbTransaction) (accounts : Accounts) (t : Transfer)
    → transfer_from_db tx accounts ≡ ok t
    → IsTransferOf tx accounts t
unfolding transfer_from_db
transfer-IsTransferOf tx accounts t h =
    let lines = keep (line_is_asset accounts) tx.lines in
    elim (Option-cases (find is_out lines)) [
      | inl e ↦ absurd (ground arith)
      | inr (out_line, e) ↦ elim (Option-cases (find is_in lines)) [
        | inl f ↦ absurd (ground arith)
        | inr (in_line, f) ↦ record {
          out_line = out_line;
          in_line = in_line;
          out_found = e;
          in_found = f;
          from_bank = ground arith;
          to_bank = ground arith;
          sent = ground arith;
          received = ground arith;
        }
      ]
    ]

-- A transfer that is converted moves a positive amount out of one account and a positive amount
-- into another or the same one.
pub transfer_positive :
    (tx : PbTransaction) (accounts : Accounts) (t : Transfer)
    → transfer_from_db tx accounts ≡ ok t
    → (pos 1 ≤ℤ t.sent_amount_nanos) × (pos 1 ≤ℤ t.received_amount_nanos)
transfer_positive tx accounts t h =
    let r = transfer-IsTransferOf tx accounts t h in
    let out = find_passes is_out (keep (line_is_asset accounts) tx.lines) r.out_line r.out_found in
    let in_ = find_passes is_in (keep (line_is_asset accounts) tx.lines) r.in_line r.in_found in
    (
      rw r.sent (positive_of_out r.out_line.amount_nanos out),
      rw r.received (positive_of_in r.in_line.amount_nanos in_),
    )
