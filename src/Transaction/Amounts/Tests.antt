-- ===== src/Transaction/Amounts/Tests.antt =====
-- Tests of frontend/lib/model/transaction/amounts.tsx, and the theorem at a concrete input.
use prosper.Prelude.{
  ◌≡◌, refl, false, Option, none, some, List, [], ◌∷◌, ok, ◌>>=◌, account_not_found, err,
}
use prosper.Prelude.Int.{ℤ, pos, ◌+ℤ◌, ◌-ℤ◌, sum}
use prosper.Model.Currency.{Currency}
use prosper.Model.BankAccount.{BankAccount}
use prosper.Money.Currency.{with_currency}
use prosper.Market.{Exchange, exchange}
use prosper.Transaction.{ExpenseOrIncome, of_expense, personal}
use prosper.Transaction.Amounts.{
  own_share_amount_nanos_ignore_refunds, own_share_amount_ignore_refunds, paid_total,
  amount_all_parties, amount_own_share,
}
use prosper.Transaction.Amounts.Shares.{amount_own_share_exchange}

abbrev pound : Currency
pound = record { code = "GBP" }

abbrev checking : BankAccount
checking = record {
  id = 1;
  name = "Checking";
  bank_id = 1;
  initial_balance_nanos = pos 0;
  currency_code = some "GBP";
  stock = none;
  display_order = pos 1;
  archived = false;
  joint = false;
}

-- A dinner for 90 of which a friend owes 30.
abbrev dinner : ExpenseOrIncome
dinner = of_expense (
    personal (record {
      id = 1;
      timestamp_epoch = pos 100;
      vendor = "Cafe";
      amount_nanos = pos 90;
      companions = record { name = "Ann"; amount_nanos = pos 30 } ∷ [];
      note = "";
      account_id = 1;
      category_id = 1;
      tags_ids = [];
      trip_id = none;
      refund_group_transaction_ids = [];
    }))

abbrev nothing_quoted : Exchange
nothing_quoted = record { exchange_rates = []; stock_quotes = [] }

abbrev never_closest : ℤ → List ℤ → Option ℤ
never_closest when times = none

own_dinner :
    amount_own_share never_closest dinner pound (checking ∷ []) [] nothing_quoted
    ≡ ok (some (with_currency (record { amount_nanos = pos 60 }) pound))
unfolding amount_own_share ◌+ℤ◌ ◌-ℤ◌
own_dinner = refl

no_account :
    amount_all_parties never_closest dinner pound [] [] nothing_quoted ≡ err account_not_found
unfolding amount_all_parties
no_account = refl

amount_own_share_exchange_example :
    (amount_own_share never_closest dinner pound (checking ∷ []) [] nothing_quoted ≡ (
      own_share_amount_ignore_refunds dinner (checking ∷ []) [] >>= λ a.
      exchange never_closest nothing_quoted a pound (pos 100)))
    × (amount_all_parties never_closest dinner pound (checking ∷ []) [] nothing_quoted ≡ (
        paid_total dinner (checking ∷ []) [] >>= λ a.
        exchange never_closest nothing_quoted a pound (pos 100)))
    × (own_share_amount_nanos_ignore_refunds dinner +ℤ sum (pos 30 ∷ []) ≡ pos 90)
amount_own_share_exchange_example =
    amount_own_share_exchange never_closest dinner pound (checking ∷ []) [] nothing_quoted
