-- ===== src/Balances/Tests.antt =====
-- Tests of the balances, and the theorems at concrete inputs.
use prosper.Prelude.{
  ℕ, ◌≡◌, refl, false, Option, none, some, List, [], ◌∷◌, Result, ok, err, ◌>>=◌, ◌⊎◌, ◌≤◌, arith,
  decreasing_as_of, find, keep,
}
use prosper.Prelude.Int.{ℤ, pos, negsuc, ◌+ℤ◌, ◌*ℤ◌, neg_ℤ}
use prosper.Model.Ledger.{
  LedgerAccount, LedgerAccountType, EntryLine, PbTransaction, TransactionType, timestamp_to_epoch,
}
use prosper.Model.Currency.{currency_of}
use prosper.Model.BankAccount.{BankAccount}
use prosper.Transaction.{Transaction, Transfer, income, transfer, opening_balance}
use prosper.Transaction.FromDb.{
  accounts_by_id, transaction_model_from_db, convert, transfer_from_db, line_is, is_asset_type,
  bank_account_of,
}
use prosper.Transaction.FromDb.Signs.{transfer_positive}
use prosper.Market.{Exchange}
use prosper.Util.Spacing.{evenly_spaced_numbers}
use prosper.Util.Spacing.Order.{Climbs}
use prosper.Balances.{
  get_or_zero, BalanceSweep, Snapshot, new_balance_sweep, advance_to, balances_as_of,
}
use prosper.Balances.Effects.{delta, opening}
use prosper.Balances.Snapshots.{
  IsFrom, Advanced, ShowEach, snapshots_from, new_balance_sweep-IsTracking, new_balance_sweep_shows,
  advance_to_throws_iff,
}
use prosper.Balances.Timeline.{net_worth_timeline, fresh_points, net_worth_timeline_fresh}
use prosper.Balances.Agreement.{asset_lines, lines_on, transaction_model_from_db_agrees}

abbrev salary : Transaction
salary = income (record {
  id = 1;
  timestamp_epoch = pos 50;
  payer = "Acme";
  amount_nanos = pos 700;
  companions = [];
  note = "";
  account_id = 1;
  category_id = 4;
  tags_ids = [];
  trip_id = none;
})

abbrev saving : Transaction
saving = transfer (record {
  id = 2;
  timestamp_epoch = pos 20;
  from_account_id = 1;
  to_account_id = 2;
  sent_amount_nanos = pos 300;
  received_amount_nanos = pos 290;
  note = "";
  category_id = 5;
  tags_ids = [];
})

-- Recorded after everything else, and in the balances from the start.
abbrev late_opening : Transaction
late_opening =
    opening_balance
      (record { id = 3; timestamp_epoch = pos 900; amount_nanos = pos 1000; account_id = 1 })

abbrev history : List Transaction
history = salary ∷ saving ∷ late_opening ∷ []

abbrev sweep : BalanceSweep
unfolding new_balance_sweep
sweep = new_balance_sweep history []

abbrev nanos_at : ℤ → ℕ → Result ℤ
nanos_at t a = do s ← balances_as_of history [] t; ok (get_or_zero a s.nanos)

balances_at_20 : (nanos_at (pos 20) 1 ≡ ok (pos 700)) × (nanos_at (pos 20) 2 ≡ ok (pos 290))
unfolding balances_as_of get_or_zero ◌+ℤ◌ neg_ℤ
balances_at_20 = (refl, refl)

balances_at_60 : (nanos_at (pos 60) 1 ≡ ok (pos 1400)) × (nanos_at (pos 10) 1 ≡ ok (pos 1000))
unfolding balances_as_of get_or_zero ◌+ℤ◌ neg_ℤ
balances_at_60 = (refl, refl)

new_balance_sweep_shows_example :
    (snapshots : List Snapshot) × (snapshots_from
        (pos 20 ∷ pos 60 ∷ [])
        (new_balance_sweep history [])
      ≡ ok snapshots)
    × ShowEach history (pos 20 ∷ pos 60 ∷ []) snapshots
new_balance_sweep_shows_example =
    new_balance_sweep_shows history [] (pos 20 ∷ pos 60 ∷ []) (tt, (omega arith, tt))

advance_to_throws_iff_example :
    IsFrom (new_balance_sweep history []).last_as_of (pos 20)
      × Advanced history (pos 20) (new_balance_sweep history [])
    ⊎ (¬ IsFrom (new_balance_sweep history []).last_as_of (pos 20))
      × (advance_to (pos 20) (new_balance_sweep history []) ≡ err decreasing_as_of)
advance_to_throws_iff_example =
    advance_to_throws_iff history (pos 20) (new_balance_sweep history [])
      (new_balance_sweep-IsTracking history [])

abbrev no_rates : Exchange
no_rates = record { exchange_rates = []; stock_quotes = [] }

abbrev current : BankAccount
current = record {
  id = 1;
  name = "Current";
  bank_id = 1;
  initial_balance_nanos = pos 0;
  currency_code = some "USD";
  stock = none;
  display_order = pos 1;
  archived = false;
  joint = false;
}

abbrev first_of : ℤ → List ℤ → Option ℤ
first_of when [] = none
first_of when (t ∷ ts) = some t

net_worth_timeline_fresh_example :
    (samples : List ℤ) × (evenly_spaced_numbers (pos 0) (pos 10_000_000) 3 ≡ ok samples)
    × Climbs (pos 0) (pos 10_000_000) samples
    × (net_worth_timeline first_of
          (current ∷ [])
          (currency_of "USD")
          no_rates
          history
          []
          (pos 0)
          (pos 10_000_000)
          3
        ≡ fresh_points first_of (current ∷ []) (currency_of "USD") no_rates history [] samples [])
unfolding ◌*ℤ◌
net_worth_timeline_fresh_example =
    net_worth_timeline_fresh first_of (current ∷ []) (currency_of "USD") no_rates history [] (pos 0)
      (pos 10_000_000) 3 (pos 0, refl) (pos 10, refl) (omega arith)

abbrev pub ledger_accounts : List LedgerAccount
ledger_accounts =
    record { id = 10; type = LedgerAccountType.asset; bank_account_id = some 1 }
    ∷ record { id = 20; type = LedgerAccountType.asset; bank_account_id = some 2 }
    ∷ record { id = 30; type = LedgerAccountType.currency_exchange; bank_account_id = none }
    ∷ []

abbrev line_of : ℕ → ℤ → EntryLine
line_of account amount = record {
  id = 1;
  ledger_account_id = account;
  currency_code = none;
  amount_nanos = amount;
}

abbrev pub pb_transfer : PbTransaction
pb_transfer = record {
  id = 2;
  iid = 7;
  timestamp = some (record { seconds = pos 1; nanos = pos 5 });
  note = "";
  type = TransactionType.transfer;
  vendor = none;
  payer = none;
  category_id = some 5;
  trip_id = none;
  supersedes_id = none;
  is_void = false;
  tag_ids = [];
  lines =
      line_of 20 (pos 290)
      ∷ line_of 30 (pos 300)
      ∷ line_of 10 (negsuc 299)
      ∷ line_of 30 (negsuc 289)
      ∷ [];
  splits = [];
}

abbrev pub transfer_result : Transfer
transfer_result = record {
  id = 2;
  timestamp_epoch = pos 1_000_000_005;
  from_account_id = 1;
  to_account_id = 2;
  sent_amount_nanos = pos 300;
  received_amount_nanos = pos 290;
  note = "";
  category_id = 5;
  tags_ids = [];
}

pb_transfer_converts :
    transfer_from_db pb_transfer (accounts_by_id ledger_accounts) ≡ ok transfer_result
unfolding transfer_from_db accounts_by_id line_is is_asset_type bank_account_of timestamp_to_epoch
    find keep neg_ℤ ◌+ℤ◌ ◌*ℤ◌
pb_transfer_converts = refl

transfer_positive_example : (1 ≤ 300) × (1 ≤ 290)
transfer_positive_example =
    transfer_positive pb_transfer (accounts_by_id ledger_accounts) transfer_result
      pb_transfer_converts

transaction_model_from_db_agrees_example :
    delta (transfer transfer_result) 2 +ℤ opening (transfer transfer_result) 2
    ≡ lines_on
        (accounts_by_id ledger_accounts)
        (asset_lines (accounts_by_id ledger_accounts) pb_transfer)
        2
unfolding transaction_model_from_db convert transfer_from_db accounts_by_id line_is is_asset_type
    bank_account_of timestamp_to_epoch find keep neg_ℤ ◌+ℤ◌ ◌*ℤ◌
transaction_model_from_db_agrees_example =
    transaction_model_from_db_agrees pb_transfer ledger_accounts (transfer transfer_result) 2 refl
      refl
