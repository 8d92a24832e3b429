-- ===== src/Stats/Series/Categories.antt =====
-- The charts MonthlyIncomeByCategory and MonthlyExpenseByCategory of
-- frontend/components/charts/timeseries, with frontend/lib/util/DefaultMap.tsx. A series that the
-- map holds is changed in place, which is to put the changed one back.
pub mod Sums
pub mod ByMonth
use prosper.Prelude.{
  ℕ, Bool, Option, none, some, List, [], ◌∷◌, String, Eq, nat_eq, Result, ok, ◌>>=◌,
}
use prosper.Prelude.Int.{ℤ}
use prosper.Prelude.Maps.{Assoc, lookup, insert}
use prosper.Money.Currency.{AmountWithCurrency}
use prosper.Category.{CategoryTree, get_name_with_ancestors}
use prosper.Transaction.{Expense, personal, third_party}
use prosper.Stats.{
  Exchanged, ExchangedIntervalTransactions, Interval, expense_time, interval_expenses,
  interval_income,
}
use prosper.Stats.Series.{Calendar, MoneyTimeseries, monthly, new_money_timeseries, increment}

-- `getOrCreate`: the value, and the map as it is then. `empty` is what the producer returns.
unfoldable pub get_or_create {ℓ κ} :
    {K : Type ℓ} {V : Type κ} ⦃e : Eq K⦄ → V → K → Assoc K V → V × Assoc K V
unfolding lookup insert
get_or_create empty k m = elim (lookup k m) [ none ↦ (empty, insert k empty m) | some v ↦ (v, m) ]

-- `NamedTimeseries`
pub record NamedTimeseries : Type 0 where
  pub name : String
  pub series : MoneyTimeseries

-- The `map` over the entries; the walk up the tree takes fuel.
unfoldable pub name_series :
    ℕ → CategoryTree → Assoc ℕ MoneyTimeseries → Result (List (Option NamedTimeseries))
unfolding get_name_with_ancestors
name_series fuel tree [] = ok []
name_series fuel tree ((category_id, series) ∷ entries) = do
  name ← get_name_with_ancestors fuel category_id tree
  named ← name_series fuel tree entries
  ok (elim name [
    | none ↦ none ∷ named
    | some n ↦ some (record { name = n; series = series }) ∷ named
  ])

module _ (calendar : Calendar) (empty : MoneyTimeseries) where
  -- `byId.getOrCreate(category).increment(time, amount)`
  unfoldable pub increment_category :
      ℕ → ℤ → AmountWithCurrency → Assoc ℕ MoneyTimeseries → Result (Assoc ℕ MoneyTimeseries)
  unfolding get_or_create increment insert
  increment_category category time amount by_id =
      let found = get_or_create empty category by_id in
      do series ← increment calendar time amount found.0; ok (insert category series found.1)

  unfoldable pub increment_categories :
      {A : Type 0}
      → (A → ℕ)
      → (A → ℤ)
      → (A → AmountWithCurrency)
      → List A
      → Assoc ℕ MoneyTimeseries
      → Result (Assoc ℕ MoneyTimeseries)
  unfolding increment_category
  increment_categories category time amount [] by_id = ok by_id
  increment_categories category time amount (x ∷ xs) by_id = do
    next ← increment_category (category x) (time x) (amount x) by_id
    increment_categories category time amount xs next

abbrev pub expense_category_id : Expense → ℕ
expense_category_id (personal t) = t.category_id
expense_category_id (third_party t) = t.category_id

module _ (calendar : Calendar) (is_within_interval : ℤ → Interval → Bool)
    (input : ExchangedIntervalTransactions) where
  -- `newEmptySeries()`
  abbrev pub new_empty_series : MoneyTimeseries
  new_empty_series = new_money_timeseries input.all.currency monthly

  unfoldable pub income_by_category : Result (Assoc ℕ MoneyTimeseries)
  unfolding increment_categories interval_income
  income_by_category =
      increment_categories calendar new_empty_series (λ x. x.t.category_id)
        (λ x. x.t.timestamp_epoch) (λ x. x.own_share) (interval_income is_within_interval input) []

  unfoldable pub expense_by_category : Result (Assoc ℕ MoneyTimeseries)
  unfolding increment_categories interval_expenses
  expense_by_category =
      increment_categories calendar new_empty_series (λ x. expense_category_id x.t)
        (λ x. expense_time x.t) (λ x. x.own_share) (interval_expenses is_within_interval input) []
