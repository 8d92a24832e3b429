-- ===== src/Stats/Series/Cashflow.antt =====
-- How the series of the charts of income, expenses and cashflow in
-- frontend/components/charts/timeseries agree.
use prosper.Prelude.{
  ◌≡◌, refl, ◌∙◌, Bool, true, false, List, [], ◌∷◌, All, ◌==◌, string_eq, if◌then◌else◌, ok,
}
use prosper.Prelude.Int.{ℤ, int_eq, pos, ◌+ℤ◌, ◌-ℤ◌, neg_ℤ, int_laws}
use prosper.Model.Currency.{Currency}
use prosper.Money
use prosper.Money.Currency.{AmountWithCurrency, nanos, negate}
use prosper.Transaction.{Expense, Income}
use prosper.Stats.{
  Exchanged, ExchangedIntervalTransactions, Interval, check_currencies, expenses_in, income_in,
  interval_expenses, interval_income, expense_time,
}
use prosper.Stats.Series.{
  Granularity, Calendar, MoneyTimeseries, new_money_timeseries, bucket, get, increment_each,
  income_series, expense_series, cashflow_series,
}
use prosper.Stats.Series.InCurrency.{
  IsOwnIn, All-keep, check_currencies-All, income_in-All, expenses_in-All,
}
use prosper.Stats.Series.Totals.{
  Filled, Filled-then, new_money_timeseries-Ready, total, increment_each-Filled, get-Filled,
}

neg_if : (b : Bool) (a : ℤ) → (if b then neg_ℤ a else pos 0) ≡ neg_ℤ (if b then a else pos 0)
neg_if true a = refl
neg_if false a = omega int_laws

-- What is taken is the opposite of what would be added.
total-negate :
    {A : Type 0} (calendar : Calendar) (time : A → ℤ) (amount : A → AmountWithCurrency)
    (g : Granularity) (xs : List A) (k : ℤ)
    → total calendar time (λ x. negate (amount x)) g xs k
      ≡ neg_ℤ (total calendar time amount g xs k)
unfolding negate Money.negate
total-negate calendar time amount g [] k = omega int_laws
total-negate calendar time amount g (x ∷ xs) k =
    rw
      (
        total-negate calendar time amount g xs k,
        neg_if (bucket calendar g (time x) == k) (nanos (amount x)),
      )
      (omega int_laws)

difference : (i e i' e' m : ℤ) → i' ≡ i → e' ≡ e → m ≡ neg_ℤ e → i +ℤ m ≡ i' -ℤ e'
difference i e i' e' m h k n = rw (h, k, n) (omega int_laws)

module _ (calendar : Calendar) (is_within_interval : ℤ → Interval → Bool) (g : Granularity)
    (input : ExchangedIntervalTransactions)
    (valid : check_currencies input.all.currency input.all.exchanged ≡ ok tt) where
  abbrev pub c : Currency
  c = input.all.currency

  abbrev pub incomes : List (Exchanged Income)
  incomes = interval_income is_within_interval input

  abbrev pub expenses : List (Exchanged Expense)
  expenses = interval_expenses is_within_interval input

  abbrev pub income_total : ℤ → ℤ
  income_total = total calendar (λ x. x.t.timestamp_epoch) (λ x. x.own_share) g incomes

  abbrev pub expense_total : ℤ → ℤ
  expense_total = total calendar (λ x. expense_time x.t) (λ x. x.own_share) g expenses

  pub incomes-All : All (IsOwnIn c) incomes
  unfolding interval_income
  incomes-All =
      All-keep (IsOwnIn c) _ (income_in input.all.exchanged)
        (income_in-All c input.all.exchanged (check_currencies-All c input.all.exchanged valid))

  pub expenses-All : All (IsOwnIn c) expenses
  unfolding interval_expenses
  expenses-All =
      All-keep (IsOwnIn c) _ (expenses_in input.all.exchanged)
        (expenses_in-All c input.all.exchanged (check_currencies-All c input.all.exchanged valid))

  income_series-Filled :
      Filled g c
        (new_money_timeseries c g)
        income_total
        (income_series calendar is_within_interval g input)
  unfolding income_series
  income_series-Filled =
      increment_each-Filled calendar (λ x. x.t.timestamp_epoch) (λ x. x.own_share) incomes g c
        (new_money_timeseries c g) (new_money_timeseries-Ready g c) incomes-All

  expense_series-Filled :
      Filled g c
        (new_money_timeseries c g)
        expense_total
        (expense_series calendar is_within_interval g input)
  unfolding expense_series
  expense_series-Filled =
      increment_each-Filled calendar (λ x. expense_time x.t) (λ x. x.own_share) expenses g c
        (new_money_timeseries c g) (new_money_timeseries-Ready g c) expenses-All

  cashflow_series-Filled :
      Filled g c
        (new_money_timeseries c g)
        (λ k.
          income_total k
          +ℤ total calendar (λ x. expense_time x.t) (λ x. negate x.own_share) g expenses k)
        (cashflow_series calendar is_within_interval g input)
  unfolding cashflow_series income_series negate
  cashflow_series-Filled =
      Filled-then
        (increment_each calendar (λ x. expense_time x.t) (λ x. negate x.own_share) expenses)
        income_series-Filled
        (increment_each-Filled calendar (λ x. expense_time x.t) (λ x. negate x.own_share) expenses g
          c income_series-Filled.result income_series-Filled.ready expenses-All)

  -- If the own shares and the paid amounts are in the currency of the input, as the constructor
  -- asserts, none of the three loops throws. At each time, the series of income, and of expenses,
  -- give the sum of the own shares in the same month, quarter or year; the cashflow is their
  -- difference.
  pub cashflow_series_difference :
      (inc : MoneyTimeseries) × (exp : MoneyTimeseries) × (net : MoneyTimeseries) × (income_series
          calendar is_within_interval g input
        ≡ ok inc)
      × (expense_series calendar is_within_interval g input ≡ ok exp)
      × (cashflow_series calendar is_within_interval g input ≡ ok net)
      × ((time : ℤ)
          → (nanos (get calendar time inc) ≡ income_total (bucket calendar g time))
            × (nanos (get calendar time exp) ≡ expense_total (bucket calendar g time))
            × (nanos (get calendar time net)
                ≡ nanos (get calendar time inc) -ℤ nanos (get calendar time exp)))
  cashflow_series_difference =
      let i = income_series-Filled in
      let e = expense_series-Filled in
      let n = cashflow_series-Filled in
      (
        i.result,
        e.result,
        n.result,
        i.returns,
        e.returns,
        n.returns,
        λ time. (
          get-Filled calendar time i,
          get-Filled calendar time e,
          get-Filled calendar time n
              ∙ difference (income_total (bucket calendar g time))
                  (expense_total (bucket calendar g time)) _ _ _ (get-Filled calendar time i)
                  (get-Filled calendar time e)
                  (total-negate calendar (λ x. expense_time x.t) (λ x. x.own_share) g expenses
                    (bucket calendar g time)),
        ),
      )
