-- ===== src/Stats/Series/Tests.antt =====
-- Tests of frontend/lib/util/Timeseries.tsx and of the charts that it fills, and the theorem at a
-- concrete input.
use prosper.Prelude.{
  ℕ, none, ◌≡◌, refl, Bool, true, [], ◌∷◌, List, ok, err, currency_mismatch, map, ◌>>=◌,
}
use prosper.Prelude.Int.{ℤ, pos, ◌-ℤ◌, ◌*ℤ◌, ◌+ℤ◌, neg_ℤ, div_floor}
use prosper.Money.Currency.{AmountWithCurrency, nanos, with_currency}
use prosper.Transaction.{Income, income}
use prosper.Stats.{ExchangedIntervalTransactions, Interval, exchanged_as, check_currencies}
use prosper.Stats.Tests.{pound, dollar, dinner_from}
use prosper.Stats.Series.{
  monthly, Calendar, MoneyTimeseries, new_money_timeseries, increment, get, bucket, entries,
  income_series, expense_series, cashflow_series, cumulate, cumulative_series,
}
use prosper.Prelude.Maps.{Assoc}
use prosper.Stats.Series.Categories.{income_by_category, expense_by_category}
use prosper.Stats.Series.Categories.Sums.{series_of}
use prosper.Stats.Series.Categories.ByMonth.{empty, income_of, expense_of, by_category_sums}
use prosper.Stats.Series.Cashflow.{income_total, expense_total, cashflow_series_difference}

-- Months of 10, quarters of 30 and years of 120 units of time.
abbrev start_of : ℕ → ℤ → ℤ
start_of n time = div_floor time n *ℤ pos n

abbrev round_calendar : Calendar
round_calendar = record {
  start_of_month = start_of 10;
  start_of_quarter = start_of 30;
  start_of_year = start_of 120;
}

abbrev always : ℤ → Interval → Bool
always time interval = true

abbrev of_nanos : ℤ → AmountWithCurrency
of_nanos n = with_currency (record { amount_nanos = n }) pound

abbrev wage : Income
wage = record {
  id = 1;
  timestamp_epoch = pos 104;
  payer = "Work";
  amount_nanos = pos 500;
  companions = [];
  note = "";
  account_id = 1;
  category_id = 1;
  tags_ids = [];
  trip_id = none;
}

abbrev one_month : ExchangedIntervalTransactions
one_month = record {
  all = record {
    exchanged =
        exchanged_as (income wage) (of_nanos (pos 500)) (of_nanos (pos 500))
        ∷ exchanged_as (dinner_from 1) (of_nanos (pos 90)) (of_nanos (pos 180))
        ∷ [];
    currency = pound;
  };
  interval = record { start = pos 0; end_ = pos 200 };
}

abbrev no_sums : MoneyTimeseries
unfolding new_money_timeseries
no_sums = new_money_timeseries pound monthly

-- Two amounts of one month are added; a later month comes after an earlier one.
amounts_by_month :
    (do
      s ← increment round_calendar (pos 25) (of_nanos (pos 7)) no_sums
      t ← increment round_calendar (pos 11) (of_nanos (pos 1)) s
      u ← increment round_calendar (pos 19) (of_nanos (pos 2)) t
      ok (map {B = ℤ × ℤ} (λ e. (e.time, nanos e.sum)) (entries u)))
    ≡ ok ((pos 10, pos 3) ∷ (pos 20, pos 7) ∷ [])
unfolding increment entries new_money_timeseries div_floor ◌*ℤ◌ ◌+ℤ◌
amounts_by_month = refl

other_currency_throws :
    increment round_calendar
      (pos 25)
      (with_currency (record { amount_nanos = pos 7 }) dollar)
      no_sums
    ≡ err currency_mismatch
unfolding increment new_money_timeseries div_floor ◌*ℤ◌ ◌+ℤ◌
other_currency_throws = refl

cumulated :
    (do
      s ← increment round_calendar (pos 11) (of_nanos (pos 1)) no_sums
      t ← increment round_calendar (pos 25) (of_nanos (pos 7)) s
      u ← cumulate round_calendar t (pos 10 ∷ pos 20 ∷ pos 30 ∷ []) (of_nanos (pos 0)) no_sums
      ok (map {B = ℤ × ℤ} (λ e. (e.time, nanos e.sum)) (entries u)))
    ≡ ok ((pos 10, pos 1) ∷ (pos 20, pos 8) ∷ (pos 30, pos 8) ∷ [])
unfolding increment entries cumulate new_money_timeseries div_floor ◌*ℤ◌ ◌+ℤ◌
cumulated = refl

-- A wage of 500 and a dinner of 90 in one month, and nothing in the next one.
saved_so_far :
    (do
      u ← cumulative_series round_calendar always (λ _. pos 100 ∷ pos 110 ∷ []) monthly one_month
      ok (map {B = ℤ × ℤ} (λ e. (e.time, nanos e.sum)) (entries u)))
    ≡ ok ((pos 100, pos 410) ∷ (pos 110, pos 410) ∷ [])
unfolding entries cumulative_series div_floor ◌*ℤ◌ ◌+ℤ◌ neg_ℤ
saved_so_far = refl

valid : check_currencies pound one_month.all.exchanged ≡ ok tt
unfolding check_currencies
valid = refl

cashflow_series_difference_example :
    (inc : MoneyTimeseries) × (exp : MoneyTimeseries) × (net : MoneyTimeseries) × (income_series
        round_calendar always monthly one_month
      ≡ ok inc)
    × (expense_series round_calendar always monthly one_month ≡ ok exp)
    × (cashflow_series round_calendar always monthly one_month ≡ ok net)
    × ((time : ℤ)
        → (nanos (get round_calendar time inc)
            ≡ income_total round_calendar always monthly one_month valid
                (bucket round_calendar monthly time))
          × (nanos (get round_calendar time exp)
              ≡ expense_total round_calendar always monthly one_month valid
                  (bucket round_calendar monthly time))
          × (nanos (get round_calendar time net)
              ≡ nanos (get round_calendar time inc) -ℤ nanos (get round_calendar time exp)))
cashflow_series_difference_example =
    cashflow_series_difference round_calendar always monthly one_month valid

-- The series that the map of the income holds for a category: of 2 there is none.
income_in_category :
    (do
      by_id ← income_by_category round_calendar always one_month
      ok (
          map {B = ℕ × List (ℤ × ℤ)}
            (λ e. (e.0, map {B = ℤ × ℤ} (λ x. (x.time, nanos x.sum)) (entries e.1)))
            by_id))
    ≡ ok ((1, (pos 100, pos 500) ∷ []) ∷ [])
unfolding entries income_by_category div_floor ◌*ℤ◌ ◌+ℤ◌ new_money_timeseries
income_in_category = refl

by_category_sums_example :
    (inc : Assoc ℕ MoneyTimeseries) × (exp : Assoc ℕ MoneyTimeseries) × (income_by_category
        round_calendar always one_month
      ≡ ok inc)
    × (expense_by_category round_calendar always one_month ≡ ok exp)
    × ((category : ℕ) (time : ℤ)
        → (nanos (
              get round_calendar time
                (series_of (empty round_calendar always one_month valid) category inc))
            ≡ income_of round_calendar always one_month valid category
                (bucket round_calendar monthly time))
          × (nanos (
                get round_calendar time
                  (series_of (empty round_calendar always one_month valid) category exp))
              ≡ expense_of round_calendar always one_month valid category
                  (bucket round_calendar monthly time)))
by_category_sums_example = by_category_sums round_calendar always one_month valid
