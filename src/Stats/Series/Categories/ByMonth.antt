-- ===== src/Stats/Series/Categories/ByMonth.antt =====
-- What the charts by category of frontend/components/charts/timeseries show for a month.
use prosper.Prelude.{ℕ, Bool, ◌≡◌, ap, ◌∙◌, List, [], nat_eq, Result, ok}
use prosper.Prelude.Int.{ℤ, zero_+ℤ}
use prosper.Prelude.Maps.{Assoc, lookup}
use prosper.Money
use prosper.Money.Currency.{nanos, zero}
use prosper.Stats.{
  Exchanged, ExchangedIntervalTransactions, Interval, check_currencies, expense_time,
}
use prosper.Transaction.{Expense, Income}
use prosper.Stats.Series.{
  Calendar, MoneyTimeseries, monthly, new_money_timeseries, value_at, get, bucket,
}
use prosper.Stats.Series.Totals.{new_money_timeseries-Ready, total}
use prosper.Stats.Series.Cashflow.{incomes, expenses, incomes-All, expenses-All}
use prosper.Stats.Series.Categories.{
  get_or_create, new_empty_series, income_by_category, expense_by_category, expense_category_id,
}
use prosper.Stats.Series.Categories.Sums.{
  series_of, items_of, Grouped, increment_categories-Grouped, AllReady,
}

module _ (calendar : Calendar) (is_within_interval : ℤ → Interval → Bool)
    (input : ExchangedIntervalTransactions)
    (valid : check_currencies input.all.currency input.all.exchanged ≡ ok tt) where
  abbrev pub empty : MoneyTimeseries
  empty = new_empty_series calendar is_within_interval input

  abbrev all_incomes : List (Exchanged Income)
  all_incomes = incomes calendar is_within_interval monthly input valid

  abbrev all_expenses : List (Exchanged Expense)
  all_expenses = expenses calendar is_within_interval monthly input valid

  -- The sum of the own shares of one category in a month.
  abbrev pub income_of : ℕ → ℤ → ℤ
  income_of category k =
      total calendar (λ x. x.t.timestamp_epoch) (λ x. x.own_share) monthly
        (items_of calendar empty monthly input.all.currency (λ x. x.t.category_id)
          (λ x. x.t.timestamp_epoch) (λ x. x.own_share) category all_incomes)
        k

  abbrev pub expense_of : ℕ → ℤ → ℤ
  expense_of category k =
      total calendar (λ x. expense_time x.t) (λ x. x.own_share) monthly
        (items_of calendar empty monthly input.all.currency (λ x. expense_category_id x.t)
          (λ x. expense_time x.t) (λ x. x.own_share) category all_expenses)
        k

  nothing-AllReady : AllReady calendar empty monthly input.all.currency []
  unfolding get_or_create lookup
  nothing-AllReady category = new_money_timeseries-Ready monthly input.all.currency

  shown :
      {change : ℕ → ℤ → ℤ} {r : Result (Assoc ℕ MoneyTimeseries)}
      (f : Grouped calendar empty monthly input.all.currency [] change r)
      → (category : ℕ) (time : ℤ)
      → nanos (get calendar time (series_of empty category f.result))
        ≡ change category (bucket calendar monthly time)
  unfolding get get_or_create lookup value_at new_money_timeseries zero Money.zero_amount
  shown {change} f category time =
      let s = series_of empty category f.result in
      f.changes category (bucket calendar s.granularity time)
      ∙ zero_+ℤ (change category (bucket calendar s.granularity time))
      ∙ ap (λ j. change category (bucket calendar j time)) (f.ready category).granularity_is

  -- If the own shares and the paid amounts are in the currency of the input, as the constructor
  -- asserts, neither loop throws, and for each category the series of it gives, at each time, the
  -- sum of the own shares of the incomes, or of the expenses, of that category in the same month.
  pub by_category_sums :
      (inc : Assoc ℕ MoneyTimeseries) × (exp : Assoc ℕ MoneyTimeseries) × (income_by_category
          calendar is_within_interval input
        ≡ ok inc)
      × (expense_by_category calendar is_within_interval input ≡ ok exp)
      × ((category : ℕ) (time : ℤ)
          → (nanos (get calendar time (series_of empty category inc))
              ≡ income_of category (bucket calendar monthly time))
            × (nanos (get calendar time (series_of empty category exp))
                ≡ expense_of category (bucket calendar monthly time)))
  unfolding income_by_category expense_by_category
  by_category_sums =
      let i =
        increment_categories-Grouped calendar empty monthly input.all.currency
          (λ x. x.t.category_id) (λ x. x.t.timestamp_epoch) (λ x. x.own_share) all_incomes []
          nothing-AllReady (incomes-All calendar is_within_interval monthly input valid) in
      let e =
        increment_categories-Grouped calendar empty monthly input.all.currency
          (λ x. expense_category_id x.t) (λ x. expense_time x.t) (λ x. x.own_share) all_expenses []
          nothing-AllReady (expenses-All calendar is_within_interval monthly input valid) in
      (
        i.result,
        e.result,
        i.returns,
        e.returns,
        λ category time. (shown i category time, shown e category time),
      )
