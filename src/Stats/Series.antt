-- ===== src/Stats/Series.antt =====
-- frontend/lib/util/Timeseries.tsx and Granularity.tsx: sums of money by month, quarter or year, and
-- the loops of frontend/components/charts/timeseries that fill them. The starts of months, quarters
-- and years of date-fns are parameters.
pub mod Totals
pub mod InCurrency
pub mod Cashflow
pub mod Categories
pub mod Tests
use prosper.Prelude.{Bool, Option, none, some, List, [], ◌∷◌, Result, ok, ◌>>=◌, map}
use prosper.Prelude.Int.{ℤ, leb_ℤ, int_eq}
use prosper.Prelude.Maps.{Assoc, lookup, insert}
use prosper.Prelude.Sort.{sort}
use prosper.Model.Currency.{Currency}
use prosper.Money.Currency.{AmountWithCurrency, zero, add, negate}
use prosper.Stats.{
  Exchanged, ExchangedIntervalTransactions, Interval, expense_time, interval_expenses,
  interval_income,
}
use prosper.Transaction.{Expense, Income}

pub data Granularity : Type 0 where
  monthly quarterly yearly : Granularity

-- `startOfMonth`, `startOfQuarter` and `startOfYear` of date-fns.
pub record Calendar : Type 0 where
  pub start_of_month : ℤ → ℤ
  pub start_of_quarter : ℤ → ℤ
  pub start_of_year : ℤ → ℤ

-- A `MoneyTimeseries` with the fields of `AbstractTimeseries`, for which `addFn` and `zero` are those
-- of amounts with a currency.
pub record MoneyTimeseries : Type 0 where
  pub granularity : Granularity
  pub data_ : Assoc ℤ AmountWithCurrency
  pub currency : Currency

unfoldable pub new_money_timeseries : Currency → Granularity → MoneyTimeseries
new_money_timeseries c g = record { granularity = g; data_ = []; currency = c }

-- `this.data.get(k) ?? this.zero`
unfoldable pub value_at : ℤ → MoneyTimeseries → AmountWithCurrency
unfolding lookup zero
value_at k s = elim (lookup k s.data_) [ none ↦ zero s.currency | some v ↦ v ]

abbrev pub put : ℤ → AmountWithCurrency → MoneyTimeseries → MoneyTimeseries
put k v s = record s { data_ = insert k v s.data_ }

-- `MoneyTimeseriesEntry`
pub record MoneyTimeseriesEntry : Type 0 where
  pub time : ℤ
  pub sum : AmountWithCurrency

abbrev pub earlier_entry : ℤ × AmountWithCurrency → ℤ × AmountWithCurrency → Bool
earlier_entry a b = leb_ℤ a.0 b.0

unfoldable pub entries : MoneyTimeseries → List MoneyTimeseriesEntry
unfolding sort
entries s = map (λ e. record { time = e.0; sum = e.1 }) (sort earlier_entry s.data_)

module _ (calendar : Calendar) where
  unfoldable pub bucket : Granularity → ℤ → ℤ
  bucket monthly time = calendar.start_of_month time
  bucket quarterly time = calendar.start_of_quarter time
  bucket yearly time = calendar.start_of_year time

  unfoldable pub increment : ℤ → AmountWithCurrency → MoneyTimeseries → Result MoneyTimeseries
  unfolding bucket value_at add insert
  increment time i s = do
    sum ← add (value_at (bucket s.granularity time) s) i
    ok (put (bucket s.granularity time) sum s)

  unfoldable pub set : ℤ → AmountWithCurrency → MoneyTimeseries → MoneyTimeseries
  unfolding bucket insert
  set time i s = put (bucket s.granularity time) i s

  unfoldable pub get : ℤ → MoneyTimeseries → AmountWithCurrency
  unfolding bucket value_at
  get time s = value_at (bucket s.granularity time) s

  -- `for (const x of items) series.increment(time(x), amount(x))`
  unfoldable pub increment_each :
      {A : Type 0}
      → (A → ℤ)
      → (A → AmountWithCurrency)
      → List A
      → MoneyTimeseries
      → Result MoneyTimeseries
  unfolding increment
  increment_each time amount [] s = ok s
  increment_each time amount (x ∷ xs) s = do
    s' ← increment (time x) (amount x) s
    increment_each time amount xs s'

  abbrev pub add_income : List (Exchanged Income) → MoneyTimeseries → Result MoneyTimeseries
  add_income = increment_each (λ x. x.t.timestamp_epoch) (λ x. x.own_share)

  abbrev pub add_expenses : List (Exchanged Expense) → MoneyTimeseries → Result MoneyTimeseries
  add_expenses = increment_each (λ x. expense_time x.t) (λ x. x.own_share)

  abbrev pub take_expenses : List (Exchanged Expense) → MoneyTimeseries → Result MoneyTimeseries
  take_expenses = increment_each (λ x. expense_time x.t) (λ x. negate x.own_share)

  -- The second loop of the cumulative charts, over the starts of the months or years.
  unfoldable pub cumulate :
      MoneyTimeseries → List ℤ → AmountWithCurrency → MoneyTimeseries → Result MoneyTimeseries
  unfolding add get set
  cumulate cashflow [] current cumulative = ok cumulative
  cumulate cashflow (m ∷ ms) current cumulative = do
    next ← add current (get m cashflow)
    cumulate cashflow ms next (set m next cumulative)

  -- `isWithinInterval` of date-fns.
  module _ (is_within_interval : ℤ → Interval → Bool) where
    -- The data of the charts `MonthlyIncome` and `YearlyIncome`.
    unfoldable pub income_series :
        Granularity → ExchangedIntervalTransactions → Result MoneyTimeseries
    unfolding increment_each interval_income new_money_timeseries
    income_series granularity input =
        add_income (interval_income is_within_interval input)
          (new_money_timeseries input.all.currency granularity)

    -- The data of the charts `MonthlyExpense` and `YearlyExpense`.
    unfoldable pub expense_series :
        Granularity → ExchangedIntervalTransactions → Result MoneyTimeseries
    unfolding increment_each interval_expenses new_money_timeseries
    expense_series granularity input =
        add_expenses (interval_expenses is_within_interval input)
          (new_money_timeseries input.all.currency granularity)

    -- The data of the charts `MonthlyCashflow` and `YearlyCashflow`.
    unfoldable pub cashflow_series :
        Granularity → ExchangedIntervalTransactions → Result MoneyTimeseries
    unfolding increment_each interval_income interval_expenses new_money_timeseries negate
    cashflow_series granularity input = do
      s ←
          add_income (interval_income is_within_interval input)
            (new_money_timeseries input.all.currency granularity)
      take_expenses (interval_expenses is_within_interval input) s

    -- The data of `MonthlyCashflowCumulative` and `YearlyCashflowCumulative`, for the starts that
    -- `eachMonthOfInterval` or `eachYearOfInterval` of date-fns gives.
    unfoldable pub cumulative_series :
        (Interval → List ℤ) → Granularity → ExchangedIntervalTransactions → Result MoneyTimeseries
    unfolding cashflow_series cumulate new_money_timeseries zero
    cumulative_series each_of_interval granularity input = do
      cashflow ← cashflow_series granularity input
      cumulate cashflow (each_of_interval input.interval) (zero input.all.currency)
          (new_money_timeseries input.all.currency granularity)
