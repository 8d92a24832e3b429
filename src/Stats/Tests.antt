-- ===== src/Stats/Tests.antt =====
-- Tests of frontend/lib/ExchangedTransactions.tsx and of the hooks in
-- frontend/app/(authenticated)/stats/modelHelpers.tsx, and the theorem at a concrete input.
use prosper.Prelude.{◌≡◌, ◌⊎◌, ℕ, refl, false, Option, none, some, List, [], ◌∷◌, ok, err, Error}
use prosper.Prelude.Int.{ℤ, pos, ◌-ℤ◌}
use prosper.Model.Currency.{Currency}
use prosper.Model.BankAccount.{BankAccount}
use prosper.Market.{Exchange}
use prosper.Transaction.{Transaction, personal_expense, transfer}
use prosper.Transaction.Amounts.{amount_own_share, amount_all_parties}
use prosper.Stats.{Exchanged, use_exchanged_transactions, exchanged_as}
use prosper.Stats.Partition.{IsSplit, Throws, use_exchanged_transactions-IsSplit}

abbrev pub pound : Currency
pound = record { code = "GBP" }

abbrev pub dollar : Currency
dollar = record { code = "USD" }

abbrev account_in : ℕ → Currency → BankAccount
account_in id c = record {
  id = id;
  name = "Checking";
  bank_id = 1;
  initial_balance_nanos = pos 0;
  currency_code = some c.code;
  stock = none;
  display_order = pos 1;
  archived = false;
  joint = false;
}

abbrev accounts : List BankAccount
accounts = account_in 1 pound ∷ account_in 2 dollar ∷ []

abbrev exchange : Exchange
exchange = record { exchange_rates = []; stock_quotes = [] }

abbrev pub dinner_from : ℕ → Transaction
dinner_from account = personal_expense (record {
  id = account;
  timestamp_epoch = pos 100;
  vendor = "Cafe";
  amount_nanos = pos 90;
  companions = [];
  note = "";
  account_id = account;
  category_id = 1;
  tags_ids = [];
  trip_id = none;
  refund_group_transaction_ids = [];
})

abbrev savings : Transaction
savings = transfer (record {
  id = 9;
  timestamp_epoch = pos 100;
  from_account_id = 1;
  to_account_id = 1;
  sent_amount_nanos = pos 5;
  received_amount_nanos = pos 5;
  note = "";
  category_id = 1;
  tags_ids = [];
})

-- A dinner in pounds, one in dollars without a rate, and a transfer.
abbrev mixed : List Transaction
mixed = dinner_from 1 ∷ dinner_from 2 ∷ savings ∷ []

abbrev closest_to : ℤ → List ℤ → Option ℤ
closest_to t times = none

mixed_split :
    use_exchanged_transactions closest_to accounts [] exchange pound mixed
    ≡ ok (
      record {
        exchanged =
            exchanged_as
              (dinner_from 1)
              (record { amount = record { amount_nanos = pos 90 }; currency = pound })
              (record { amount = record { amount_nanos = pos 90 }; currency = pound })
            ∷ exchanged_as savings
                (record { amount = record { amount_nanos = pos 0 }; currency = pound })
                (record { amount = record { amount_nanos = pos 0 }; currency = pound })
            ∷ [];
        currency = pound;
      },
      dinner_from 2 ∷ [],
    )
unfolding use_exchanged_transactions amount_own_share amount_all_parties ◌-ℤ◌
mixed_split = refl

use_exchanged_transactions-IsSplit_example :
    ((e : Error) × (use_exchanged_transactions closest_to accounts [] exchange pound mixed ≡ err e)
      × Throws closest_to accounts [] exchange pound mixed e)
    ⊎ ((ys : List (Exchanged Transaction)) × (failed : List Transaction)
        × (use_exchanged_transactions closest_to accounts [] exchange pound mixed
            ≡ ok (record { exchanged = ys; currency = pound }, failed))
        × IsSplit closest_to accounts [] exchange pound mixed ys failed)
use_exchanged_transactions-IsSplit_example =
    use_exchanged_transactions-IsSplit closest_to accounts [] exchange pound mixed
