-- ===== src/Balances.antt =====
-- frontend/lib/model/balances.ts: account balances over time, by one sweep over the transactions
-- in the order of time; with `nanosAppendMap` of frontend/lib/util/AppendMap.tsx.
pub mod Effects
pub mod Sweep
pub mod Snapshots
pub mod Timeline
pub mod Agreement
pub mod Total
pub mod Tests
use prosper.Prelude.{
  ℕ, zero, suc, ◌+◌, Bool, true, false, Option, none, some, List, [], ◌∷◌, ◌++◌, if◌then◌else◌,
  nat_eq, drop, Result, ok, err, guard, ◌>>=◌, ◌>>◌, unknown_kind, decreasing_as_of, not,
}
use prosper.Prelude.Int.{ℤ, pos, ◌+ℤ◌, neg_ℤ, ltb_ℤ, leb_ℤ}
use prosper.Prelude.Maps.{Assoc, lookup, insert}
use prosper.Prelude.Sort.{sort}
use prosper.Model.Currency.{Currency}
use prosper.Model.Stock.{Stock}
use prosper.Model.BankAccount.{BankAccount, account_unit}
use prosper.Transaction.{
  Transaction, personal_expense, third_party_expense, transfer, income, opening_balance, epoch_of,
}
use prosper.Money.Currency as Money_currency
use prosper.Money.Currency.{AmountWithCurrency}
use prosper.Money.Unit.{AmountWithUnit, with_unit}
use prosper.Market.{Exchange, exchange}

-- `nanosAppendMap()`
abbrev pub NanosMap : Type 0
NanosMap = Assoc ℕ ℤ

abbrev pub or_zero : Option ℤ → ℤ
or_zero none = pos 0
or_zero (some n) = n

unfoldable pub get_or_zero : ℕ → NanosMap → ℤ
unfolding lookup
get_or_zero k m = or_zero (lookup k m)

unfoldable pub increment : ℕ → ℤ → NanosMap → NanosMap
unfolding get_or_zero insert
increment k v m = insert k (get_or_zero k m +ℤ v) m

-- An account and the change of its balance.
abbrev pub Effect : Type 0
Effect = ℕ × ℤ

-- The `default` of the `switch` throws: an opening balance has no effect to replay.
unfoldable pub balance_effects : Transaction → Result (List Effect)
balance_effects (income t) = ok ((t.account_id, t.amount_nanos) ∷ [])
balance_effects (personal_expense t) = ok ((t.account_id, neg_ℤ t.amount_nanos) ∷ [])
balance_effects (third_party_expense t) = ok []
balance_effects (transfer t) = ok (
    (t.from_account_id, neg_ℤ t.sent_amount_nanos)
    ∷ (t.to_account_id, t.received_amount_nanos)
    ∷ [])
balance_effects (opening_balance t) = err unknown_kind

pub record Snapshot : Type 0 where
  pub as_of : ℤ
  pub nanos : NanosMap
  pub stocks : List Stock

-- `AccountBalancesSnapshot.of`
unfoldable pub balance_of : Snapshot → BankAccount → Result AmountWithUnit
unfolding get_or_zero account_unit
balance_of s account = do
  unit ← account_unit account s.stocks
  ok (with_unit (record { amount_nanos = get_or_zero account.id s.nanos }) unit)

-- The value of one account in the target currency, as `AccountBalancesSnapshot.sum` takes it.
unfoldable pub account_value :
    (ℤ → List ℤ → Option ℤ)
    → Currency
    → Exchange
    → Snapshot
    → BankAccount
    → Result (Option AmountWithCurrency)
unfolding balance_of exchange
account_value closest_to target x s account = do
  balance ← balance_of s account
  exchange closest_to x balance target s.as_of

-- The loop of `AccountBalancesSnapshot.sum`, over the value of an account.
unfoldable pub sum_values :
    (BankAccount → Result (Option AmountWithCurrency))
    → List BankAccount
    → AmountWithCurrency
    → Result (Option AmountWithCurrency)
unfolding Money_currency.add
sum_values value_of [] sum = ok (some sum)
sum_values value_of (account ∷ accounts) sum = do
  value ← value_of account
  elim value [
    | none ↦ ok none
    | some v ↦ do sum' ← Money_currency.add sum v; sum_values value_of accounts sum'
  ]

unfoldable pub snapshot_sum :
    (ℤ → List ℤ → Option ℤ)
    → Snapshot
    → List BankAccount
    → Currency
    → Exchange
    → Result (Option AmountWithCurrency)
unfolding sum_values account_value Money_currency.zero
snapshot_sum closest_to s accounts target x =
    sum_values (account_value closest_to target x s) accounts (Money_currency.zero target)

-- `BalanceSweep`; `none` is the `-Infinity` that `lastAsOf` starts from.
pub record BalanceSweep : Type 0 where
  pub sorted : List Transaction
  pub stocks : List Stock
  pub nanos : NanosMap
  pub cursor : ℕ
  pub last_as_of : Option ℤ

-- The loop of the constructor: the balances and the list that is sorted after it.
unfoldable pub seed : List Transaction → NanosMap → List Transaction → NanosMap × List Transaction
unfolding increment
seed [] nanos sorted = (nanos, sorted)
seed (opening_balance t ∷ ts) nanos sorted =
    seed ts (increment t.account_id t.amount_nanos nanos) sorted
seed (t ∷ ts) nanos sorted = seed ts nanos (sorted ++ t ∷ [])

abbrev pub by_time : Transaction → Transaction → Bool
by_time a b = leb_ℤ (epoch_of a) (epoch_of b)

unfoldable pub new_balance_sweep : List Transaction → List Stock → BalanceSweep
unfolding seed sort
new_balance_sweep transactions stocks =
    let (nanos, activity) = seed transactions [] [] in
    record {
      sorted = sort by_time activity;
      stocks = stocks;
      nanos = nanos;
      cursor = 0;
      last_as_of = none;
    }

unfoldable pub apply_effects : List Effect → NanosMap → NanosMap
unfolding increment
apply_effects [] nanos = nanos
apply_effects ((account_id, delta) ∷ effects) nanos =
    apply_effects effects (increment account_id delta nanos)

-- The `while` of `advanceTo`, over the transactions from the cursor on.
unfoldable pub replay : ℤ → List Transaction → NanosMap → ℕ → Result (NanosMap × ℕ)
unfolding apply_effects balance_effects
replay as_of [] nanos cursor = ok (nanos, cursor)
replay as_of (t ∷ rest) nanos cursor =
    if leb_ℤ (epoch_of t) as_of
    then (do
      effects ← balance_effects t
      replay as_of rest (apply_effects effects nanos) (cursor + 1))
    else ok (nanos, cursor)

abbrev pub not_before : ℤ → Option ℤ → Bool
not_before as_of none = true
not_before as_of (some last) = not (ltb_ℤ as_of last)

unfoldable pub advance_to : ℤ → BalanceSweep → Result (Snapshot × BalanceSweep)
unfolding replay
advance_to as_of s = do
  guard (not_before as_of s.last_as_of) decreasing_as_of
  (nanos, cursor) ← replay as_of (drop s.cursor s.sorted) s.nanos s.cursor
  ok (
    record { as_of = as_of; nanos = nanos; stocks = s.stocks },
    record s { nanos = nanos; cursor = cursor; last_as_of = some as_of },
  )

unfoldable pub balances_as_of : List Transaction → List Stock → ℤ → Result Snapshot
unfolding new_balance_sweep advance_to
balances_as_of transactions stocks as_of = do
  (snapshot, _) ← advance_to as_of (new_balance_sweep transactions stocks)
  ok snapshot
