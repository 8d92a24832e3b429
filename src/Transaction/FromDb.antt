-- ===== src/Transaction/FromDb.antt =====
-- The conversions `…FromDB` of frontend/lib/model/transaction: from a ledger transaction with its
-- entry lines to one of the client's five kinds, or an error.
pub mod Signs
use prosper.Prelude.{
  ℕ, zero, suc, String, Bool, true, false, not, Option, none, some, List, [], ◌∷◌, map, ltb, length,
  if◌then◌else◌, nat_eq, present, present_text, find, keep, Result, ok, err, guard, or_throw, ◌>>=◌,
  ◌>>◌, account_not_found, missing_category, missing_vendor, missing_payer, missing_currency,
  no_asset_line, no_expense_line, no_receivable_line, no_split_context, no_bank_account,
  asset_line_count, no_direction, unknown_type,
}
use prosper.Prelude.Int.{ℤ, pos, neg_ℤ, ltb_ℤ, sum_from}
use prosper.Prelude.Maps.{Assoc, lookup, from_entries}
use prosper.Model.Ledger.{
  LedgerAccount, LedgerAccountType, TransactionType, EntryLine, SplitContext, PbTransaction,
  timestamp_to_epoch,
}
use prosper.Transaction.{
  TransactionCompanion, Income, PersonalExpense, ThirdPartyExpense, Transfer, OpeningBalance,
  Transaction, personal_expense, third_party_expense, transfer, income, opening_balance,
}

abbrev pub Accounts : Type 0
Accounts = Assoc ℕ LedgerAccount

unfoldable pub is_asset_type : LedgerAccountType → Bool
is_asset_type LedgerAccountType.asset = true
is_asset_type _ = false

unfoldable pub is_expense_type : LedgerAccountType → Bool
is_expense_type LedgerAccountType.expense = true
is_expense_type _ = false

unfoldable pub is_receivable_type : LedgerAccountType → Bool
is_receivable_type LedgerAccountType.receivable = true
is_receivable_type _ = false

-- `acct?.type === …` of a line's account.
unfoldable pub line_is : (LedgerAccountType → Bool) → Accounts → EntryLine → Bool
unfolding lookup
line_is test accounts l = elim (lookup l.ledger_account_id accounts) [
  | none ↦ false
  | some acct ↦ test acct.type
]

abbrev pub line_is_asset : Accounts → EntryLine → Bool
line_is_asset = line_is is_asset_type

-- `accounts.get(line.ledgerAccountId)?.bankAccountId`, where it is there and not 0.
unfoldable pub bank_account_of : Accounts → EntryLine → Option ℕ
unfolding lookup
bank_account_of accounts l = elim (lookup l.ledger_account_id accounts) [
  | none ↦ none
  | some acct ↦ present acct.bank_account_id
]

unfoldable pub companions_of : List SplitContext → List TransactionCompanion
companions_of =
    map λ (s : SplitContext). record {
      name = s.companion_name;
      amount_nanos = s.companion_share_nanos;
    }

unfoldable pub income_from_db : PbTransaction → Accounts → Result Income
income_from_db tx accounts = do
  category ← or_throw (present tx.category_id) missing_category
  payer ← or_throw tx.payer missing_payer
  asset_line ← or_throw (find (line_is_asset accounts) tx.lines) no_asset_line
  account ← or_throw (bank_account_of accounts asset_line) no_bank_account
  time ← timestamp_to_epoch tx.timestamp
  ok (record {
    id = tx.id;
    timestamp_epoch = time;
    payer = payer;
    amount_nanos = asset_line.amount_nanos;
    companions = companions_of tx.splits;
    note = tx.note;
    account_id = account;
    category_id = category;
    tags_ids = tx.tag_ids;
    trip_id = tx.trip_id;
  })

unfoldable pub personal_expense_from_db : PbTransaction → Accounts → Result PersonalExpense
personal_expense_from_db tx accounts = do
  category ← or_throw (present tx.category_id) missing_category
  vendor ← or_throw tx.vendor missing_vendor
  asset_line ← or_throw (find (line_is_asset accounts) tx.lines) no_asset_line
  account ← or_throw (bank_account_of accounts asset_line) no_bank_account
  time ← timestamp_to_epoch tx.timestamp
  ok (record {
    id = tx.id;
    timestamp_epoch = time;
    vendor = vendor;
    amount_nanos = neg_ℤ asset_line.amount_nanos;
    companions = companions_of tx.splits;
    note = tx.note;
    account_id = account;
    category_id = category;
    tags_ids = tx.tag_ids;
    trip_id = tx.trip_id;
    refund_group_transaction_ids = [];
  })

unfoldable pub third_party_expense_from_db : PbTransaction → Accounts → Result ThirdPartyExpense
third_party_expense_from_db tx accounts = do
  guard (ltb 0 (length tx.splits)) no_split_context
  expense_line ← or_throw (find (line_is is_expense_type accounts) tx.lines) no_expense_line
  receivable_line ←
      or_throw (find (line_is is_receivable_type accounts) tx.lines) no_receivable_line
  code ← or_throw (present_text expense_line.currency_code) missing_currency
  payer ← or_throw (present_text tx.payer) missing_payer
  vendor ← or_throw (present_text tx.vendor) missing_vendor
  category ← or_throw (present tx.category_id) missing_category
  time ← timestamp_to_epoch tx.timestamp
  ok (record {
    id = tx.id;
    timestamp_epoch = time;
    payer = payer;
    vendor = vendor;
    amount_nanos = sum_from (pos 0) (map (λ (s : SplitContext). s.companion_paid_nanos) tx.splits);
    currency_code = code;
    own_share_nanos = expense_line.amount_nanos;
    companions = companions_of tx.splits;
    note = tx.note;
    category_id = category;
    tags_ids = tx.tag_ids;
    trip_id = tx.trip_id;
  })

abbrev pub is_out : EntryLine → Bool
is_out l = ltb_ℤ l.amount_nanos (pos 0)

abbrev pub is_in : EntryLine → Bool
is_in l = ltb_ℤ (pos 0) l.amount_nanos

unfoldable pub transfer_from_db : PbTransaction → Accounts → Result Transfer
transfer_from_db tx accounts = do
  category ← or_throw (present tx.category_id) missing_category
  let asset_lines = keep (line_is_asset accounts) tx.lines
  guard (not (ltb (length asset_lines) 2)) asset_line_count
  out_line ← or_throw (find is_out asset_lines) no_direction
  in_line ← or_throw (find is_in asset_lines) no_direction
  from_account ← or_throw (bank_account_of accounts out_line) no_bank_account
  to_account ← or_throw (bank_account_of accounts in_line) no_bank_account
  time ← timestamp_to_epoch tx.timestamp
  ok (record {
    id = tx.id;
    timestamp_epoch = time;
    from_account_id = from_account;
    to_account_id = to_account;
    sent_amount_nanos = neg_ℤ out_line.amount_nanos;
    received_amount_nanos = in_line.amount_nanos;
    note = tx.note;
    category_id = category;
    tags_ids = tx.tag_ids;
  })

-- The `filter` of `findAssetLineAndAccount`, whose test throws at a line with no account.
unfoldable pub asset_lines_or_throw : Accounts → List EntryLine → Result (List EntryLine)
unfolding is_asset_type lookup
asset_lines_or_throw accounts [] = ok []
asset_lines_or_throw accounts (l ∷ lines) = do
  acct ← or_throw (lookup l.ledger_account_id accounts) account_not_found
  rest ← asset_lines_or_throw accounts lines
  ok (if is_asset_type acct.type then l ∷ rest else rest)

-- `const [line] = assetLines`, where there is exactly one.
unfoldable pub single_line : List EntryLine → Result EntryLine
single_line (l ∷ []) = ok l
single_line _ = err asset_line_count

unfoldable pub opening_balance_from_db : PbTransaction → Accounts → Result OpeningBalance
opening_balance_from_db tx accounts = do
  asset_lines ← asset_lines_or_throw accounts tx.lines
  line ← single_line asset_lines
  account ← or_throw (bank_account_of accounts line) no_bank_account
  time ← timestamp_to_epoch tx.timestamp
  ok (record {
    id = tx.id;
    timestamp_epoch = time;
    amount_nanos = line.amount_nanos;
    account_id = account;
  })

-- `new Map(ledgerAccounts.map(a => [a.id, a]))`
unfoldable pub accounts_by_id : List LedgerAccount → Accounts
unfolding from_entries
accounts_by_id accounts = from_entries (map (λ (a : LedgerAccount). (a.id, a)) accounts) []

-- The `switch` of `transactionModelFromDB`.
unfoldable pub convert : TransactionType → PbTransaction → Accounts → Result Transaction
convert TransactionType.expense init accounts = do
  t ← personal_expense_from_db init accounts
  ok (personal_expense t)
convert TransactionType.third_party_expense init accounts = do
  t ← third_party_expense_from_db init accounts
  ok (third_party_expense t)
convert TransactionType.transfer init accounts = do
  t ← transfer_from_db init accounts
  ok (transfer t)
convert TransactionType.income init accounts = do t ← income_from_db init accounts; ok (income t)
convert TransactionType.opening_balance init accounts = do
  t ← opening_balance_from_db init accounts
  ok (opening_balance t)
convert TransactionType.unspecified init accounts = err unknown_type

unfoldable pub transaction_model_from_db : PbTransaction → List LedgerAccount → Result Transaction
transaction_model_from_db init ledger_accounts =
    convert init.type init (accounts_by_id ledger_accounts)
