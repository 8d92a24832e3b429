-- ===== src/Stats/Series/Categories/Sums.antt =====
-- What the series by category of frontend/components/charts/timeseries hold.
use prosper.Prelude.{
  ℕ, ◌≡◌, refl, sym, ap, ◌∙◌, List, [], ◌∷◌, All, keep, arith, ◌==◌, nat_eq, if◌then◌else◌, Result,
  ok, Bool-cases, inl, inr,
}
use prosper.Prelude.Int.{ℤ, pos, ◌+ℤ◌, int_laws, zero_+ℤ}
use prosper.Prelude.Maps.{Assoc, insert, lookup-insert}
use prosper.Model.Currency.{Currency}
use prosper.Money.Currency.{AmountWithCurrency, nanos}
use prosper.Stats.Series.{Granularity, Calendar, MoneyTimeseries, value_at}
use prosper.Stats.Series.Totals.{Ready, added, total, increment-Filled}
use prosper.Stats.Series.Categories.{get_or_create, increment_category, increment_categories}

-- The series of a category, the empty one where there is none.
abbrev pub series_of : MoneyTimeseries → ℕ → Assoc ℕ MoneyTimeseries → MoneyTimeseries
series_of empty category by_id = (get_or_create empty category by_id).0

series_of-insert :
    (empty : MoneyTimeseries) (stored asked : ℕ) (s : MoneyTimeseries)
    (by_id : Assoc ℕ MoneyTimeseries)
    → series_of empty asked (insert stored s (get_or_create empty stored by_id).1)
      ≡ (if stored == asked then s else series_of empty asked by_id)
unfolding get_or_create
series_of-insert empty stored asked s by_id = ground (
  arith,
  lookup-insert stored asked s by_id,
  lookup-insert stored asked s (insert stored empty by_id),
  lookup-insert stored asked empty by_id,
)

module _ (calendar : Calendar) (empty : MoneyTimeseries) (g : Granularity) (c : Currency) where
  abbrev pub AllReady : Assoc ℕ MoneyTimeseries → Type 0
  AllReady by_id = (category : ℕ) → Ready g c (series_of empty category by_id)

  -- A call that returns a map of series whose sums differ from those of `by_id` by `change`.
  pub record Grouped (by_id : Assoc ℕ MoneyTimeseries) (change : ℕ → ℤ → ℤ)
      (r : Result (Assoc ℕ MoneyTimeseries)) : Type 0 where
    pub result : Assoc ℕ MoneyTimeseries
    pub returns : r ≡ ok result
    pub ready : AllReady result
    pub changes :
        (category : ℕ) (k : ℤ)
        → nanos (value_at k (series_of empty category result))
          ≡ nanos (value_at k (series_of empty category by_id)) +ℤ change category k

  increment_category-Grouped :
      (category : ℕ) (time : ℤ) (i : AmountWithCurrency) (by_id : Assoc ℕ MoneyTimeseries)
      → AllReady by_id
      → i.currency.code ≡ c.code
      → Grouped by_id
          (λ asked k. if category == asked then added calendar g time i k else pos 0)
          (increment_category calendar empty category time i by_id)
  unfolding increment_category
  increment_category-Grouped category time i by_id h same =
      let s = series_of empty category by_id in
      let f = increment-Filled calendar time i g c s (h category) same in
      record {
        result = insert category f.result (get_or_create empty category by_id).1;
        returns = rw f.returns refl;
        ready = λ asked. elim (Bool-cases (category == asked)) [
          | inl e ↦ rw (series_of-insert empty category asked f.result by_id, e) f.ready
          | inr e ↦ rw (series_of-insert empty category asked f.result by_id, e) (h asked)
        ];
        changes = λ asked k. elim (Bool-cases (category == asked)) [
          | inl e ↦
              rw (series_of-insert empty category asked f.result by_id, e)
                (f.changes k
                  ∙ ap
                      (λ j.
                        nanos (value_at k (series_of empty j by_id)) +ℤ added calendar g time i k)
                      ((nat_eq.test_iff category asked).0 e))
          | inr e ↦ rw (series_of-insert empty category asked f.result by_id, e) (omega int_laws)
        ];
      }

  module _ {A : Type 0} (category : A → ℕ) (time : A → ℤ) (amount : A → AmountWithCurrency) where
    -- The items of a category.
    abbrev pub items_of : ℕ → List A → List A
    items_of asked xs = keep (λ x. category x == asked) xs

    total-items_of :
        (x : A) (xs : List A) (asked : ℕ) (k : ℤ)
        → total calendar time amount g (items_of asked (x ∷ xs)) k
          ≡ (if category x == asked then added calendar g (time x) (amount x) k else pos 0)
            +ℤ total calendar time amount g (items_of asked xs) k
    unfolding keep
    total-items_of x xs asked k = elim (Bool-cases (category x == asked)) [
      | inl e ↦ rw e refl
      | inr e ↦ rw e (sym (zero_+ℤ (total calendar time amount g (items_of asked xs) k)))
    ]

    -- Over amounts in the currency of the series, the loop never throws, and adds each amount to
    -- the month of it in the series of its category alone.
    pub increment_categories-Grouped :
        (xs : List A) (by_id : Assoc ℕ MoneyTimeseries)
        → AllReady by_id
        → All (λ x. (amount x).currency.code ≡ c.code) xs
        → Grouped by_id
            (λ asked. total calendar time amount g (items_of asked xs))
            (increment_categories calendar empty category time amount xs by_id)
    unfolding increment_categories keep
    increment_categories-Grouped [] by_id h all = record {
      result = by_id;
      returns = refl;
      ready = h;
      changes = λ asked k. omega int_laws;
    }
    increment_categories-Grouped (x ∷ xs) by_id h all =
        let one = increment_category-Grouped (category x) (time x) (amount x) by_id h all.0 in
        let rest = increment_categories-Grouped xs one.result one.ready all.1 in
        record {
          result = rest.result;
          returns = rw one.returns rest.returns;
          ready = rest.ready;
          changes = λ asked k.
              rw (rest.changes asked k, one.changes asked k, total-items_of x xs asked k)
                (omega int_laws);
        }
