-- ===== src/Balances/Total/Tests.antt =====
-- Tests of `AccountBalancesSnapshot.sum` of frontend/lib/model/balances.ts, and the theorem at a
-- concrete input.
use prosper.Prelude.{◌≡◌, refl, false, Option, none, some, List, [], ◌∷◌, ok, ◌>>=◌, ℕ, String}
use prosper.Prelude.Int.{ℤ, pos, ◌+ℤ◌, ◌*ℤ◌, div_trunc, div_floor}
use prosper.Model.Currency.{currency_of}
use prosper.Model.BankAccount.{BankAccount}
use prosper.Market.{Exchange}
use prosper.Balances.{Snapshot, snapshot_sum, account_value}
use prosper.Balances.Total.{all_values, total_of, in_nanos, snapshot_sum_total}

abbrev account : ℕ → String → BankAccount
account id code = record {
  id = id;
  name = "Account";
  bank_id = 1;
  initial_balance_nanos = pos 0;
  currency_code = some code;
  stock = none;
  display_order = pos 1;
  archived = false;
  joint = false;
}

abbrev balances : Snapshot
balances = record {
  as_of = pos 0;
  nanos = (1, pos 700) ∷ (2, pos 40) ∷ (3, pos 5) ∷ [];
  stocks = [];
}

-- A pound is worth two dollars on the first day.
abbrev market : Exchange
market = record {
  exchange_rates = ("GBP", ("USD", (pos 0, pos 2_000_000_000) ∷ []) ∷ []) ∷ [];
  stock_quotes = [];
}

abbrev never : ℤ → List ℤ → Option ℤ
never when times = none

abbrev dollars_and_pounds : List BankAccount
dollars_and_pounds = account 1 "USD" ∷ account 2 "GBP" ∷ []

in_dollars :
    snapshot_sum never balances dollars_and_pounds (currency_of "USD") market
    ≡ ok (some (in_nanos (pos 780) (currency_of "USD")))
unfolding snapshot_sum ◌+ℤ◌ ◌*ℤ◌ div_trunc div_floor
in_dollars = refl

-- There is no rate for the euro.
no_euro_rate :
    snapshot_sum never balances (account 3 "EUR" ∷ dollars_and_pounds) (currency_of "USD") market
    ≡ ok none
unfolding snapshot_sum ◌+ℤ◌ ◌*ℤ◌ div_trunc div_floor
no_euro_rate = refl

snapshot_sum_total_example :
    snapshot_sum never balances dollars_and_pounds (currency_of "USD") market ≡ (
      all_values (account_value never (currency_of "USD") market balances) dollars_and_pounds
      >>= λ o. ok (total_of (currency_of "USD") o))
snapshot_sum_total_example =
    snapshot_sum_total never balances dollars_and_pounds (currency_of "USD") market
