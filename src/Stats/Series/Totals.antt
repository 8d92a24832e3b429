-- ===== src/Stats/Series/Totals.antt =====
-- The sums that the series of frontend/lib/util/Timeseries.tsx holds after a loop has filled it.
use prosper.Prelude.{
  ◌≡◌, refl, sym, ap, ◌∙◌, List, [], ◌∷◌, All, arith, ◌==◌, string_eq, if◌then◌else◌, Result, ok,
  ◌>>=◌, Bool-cases, inl, inr,
}
use prosper.Prelude.Int.{ℤ, pos, ◌+ℤ◌, int_eq, int_laws, +ℤ_assoc, zero_+ℤ}
use prosper.Prelude.Maps.{lookup, lookup-insert, beq_refl}
use prosper.Model.Currency.{Currency}
use prosper.Money
use prosper.Money.Currency.{
  AmountWithCurrency, zero, add, nanos, with_currency, assert_same_currency,
}
use prosper.Stats.Series.{
  Granularity, Calendar, MoneyTimeseries, new_money_timeseries, value_at, put, bucket, increment,
  increment_each, get,
}

-- A series of granularity `g` in the currency `c`, and so is each of its sums.
pub record Ready (g : Granularity) (c : Currency) (s : MoneyTimeseries) : Type 0 where
  pub granularity_is : s.granularity ≡ g
  pub currency_is : s.currency ≡ c
  pub sums_in : (k : ℤ) → (value_at k s).currency.code ≡ c.code

-- A call that returns a series whose sums differ from those of `s` by `change`.
pub record Filled (g : Granularity) (c : Currency) (s : MoneyTimeseries) (change : ℤ → ℤ)
    (r : Result MoneyTimeseries) : Type 0 where
  pub result : MoneyTimeseries
  pub returns : r ≡ ok result
  pub ready : Ready g c result
  pub changes : (k : ℤ) → nanos (value_at k result) ≡ nanos (value_at k s) +ℤ change k

pub new_money_timeseries-Ready :
    (g : Granularity) (c : Currency) → Ready g c (new_money_timeseries c g)
unfolding new_money_timeseries value_at lookup zero
new_money_timeseries-Ready g c = record {
  granularity_is = refl;
  currency_is = refl;
  sums_in = λ k. refl;
}

-- One call after the other.
pub Filled-then :
    {g : Granularity} {c : Currency} {s : MoneyTimeseries} {first second : ℤ → ℤ}
    {r : Result MoneyTimeseries} (next : MoneyTimeseries → Result MoneyTimeseries)
    (f : Filled g c s first r)
    → Filled g c f.result second (next f.result)
    → Filled g c s (λ k. first k +ℤ second k) (r >>= next)
Filled-then {s = s} {first} {second} next f h = record {
  result = h.result;
  returns = ap (λ o. o >>= next) f.returns ∙ h.returns;
  ready = h.ready;
  changes = λ k.
      h.changes k
      ∙ ap (λ n. n +ℤ second k) (f.changes k)
      ∙ +ℤ_assoc (nanos (value_at k s)) (first k) (second k);
}

value_at-put :
    (stored k : ℤ) (v : AmountWithCurrency) (s : MoneyTimeseries)
    → value_at k (put stored v s) ≡ (if stored == k then v else value_at k s)
unfolding value_at
value_at-put stored k v s = ground (arith, lookup-insert stored k v s.data_)

add_same :
    (a b : AmountWithCurrency)
    → a.currency.code ≡ b.currency.code
    → add a b ≡ ok (with_currency (record { amount_nanos = nanos a +ℤ nanos b }) a.currency)
unfolding add assert_same_currency Money.add
add_same a b h = rw (h, beq_refl b.currency.code) refl

currency_kept :
    (stored k : ℤ) (v : AmountWithCurrency) (s : MoneyTimeseries) (c : Currency)
    → v.currency.code ≡ c.code
    → (value_at k s).currency.code ≡ c.code
    → (value_at k (put stored v s)).currency.code ≡ c.code
currency_kept stored k v s c h old = elim (Bool-cases (stored == k)) [
  | inl e ↦ rw (value_at-put stored k v s, e) h
  | inr e ↦ rw (value_at-put stored k v s, e) old
]

-- The sum that is put in the place of `v` differs from it by `i`, and the others are kept.
change_put :
    (stored k : ℤ) (v i : AmountWithCurrency) (s : MoneyTimeseries)
    → value_at stored s ≡ v
    → nanos (
        value_at k
          (put stored (with_currency (record { amount_nanos = nanos v +ℤ nanos i }) v.currency) s))
      ≡ nanos (value_at k s) +ℤ (if stored == k then nanos i else pos 0)
change_put stored k v i s h = elim (Bool-cases (stored == k)) [
  | inl e ↦
      rw (value_at-put stored k _ s, e)
        (ap (λ w. nanos w +ℤ nanos i)
          (sym h ∙ ap (λ j. value_at j s) ((int_eq.test_iff stored k).0 e)))
  | inr e ↦ rw (value_at-put stored k _ s, e) (omega int_laws)
]

module _ (calendar : Calendar) where
  -- What one amount adds to the bucket at `k`.
  abbrev pub added : Granularity → ℤ → AmountWithCurrency → ℤ → ℤ
  added g time i k = if bucket calendar g time == k then nanos i else pos 0

  pub increment-Filled :
      (time : ℤ) (i : AmountWithCurrency) (g : Granularity) (c : Currency) (s : MoneyTimeseries)
      → Ready g c s
      → i.currency.code ≡ c.code
      → Filled g c s (added g time i) (increment calendar time i s)
  unfolding increment
  increment-Filled time i g c s h same =
      let b = bucket calendar s.granularity time in
      let v = value_at b s in
      let sum = with_currency (record { amount_nanos = nanos v +ℤ nanos i }) v.currency in
      record {
        result = put b sum s;
        returns = rw (add_same v i (h.sums_in b ∙ sym same)) refl;
        ready = record {
          granularity_is = h.granularity_is;
          currency_is = h.currency_is;
          sums_in = λ k. currency_kept b k sum s c (h.sums_in b) (h.sums_in k);
        };
        changes = λ k.
            change_put b k v i s refl
            ∙ ap (λ j. nanos (value_at k s) +ℤ added j time i k) h.granularity_is;
      }

  module _ {A : Type 0} (time : A → ℤ) (amount : A → AmountWithCurrency) where
    -- What the loop over `xs` adds to the bucket at `k`.
    abbrev pub total : Granularity → List A → ℤ → ℤ
    total g [] k = pos 0
    total g (x ∷ xs) k = added g (time x) (amount x) k +ℤ total g xs k

    -- A loop over amounts in the currency of the series never throws, and adds each of them to
    -- the sum of its month, quarter or year.
    pub increment_each-Filled :
        (xs : List A) (g : Granularity) (c : Currency) (s : MoneyTimeseries)
        → Ready g c s
        → All (λ x. (amount x).currency.code ≡ c.code) xs
        → Filled g c s (total g xs) (increment_each calendar time amount xs s)
    unfolding increment_each
    increment_each-Filled [] g c s h all = record {
      result = s;
      returns = refl;
      ready = h;
      changes = λ k. omega int_laws;
    }
    increment_each-Filled (x ∷ xs) g c s h all =
        let one = increment-Filled (time x) (amount x) g c s h all.0 in
        Filled-then (increment_each calendar time amount xs) one
          (increment_each-Filled xs g c one.result one.ready all.1)

  -- A series that was empty gives what has been added.
  pub get-Filled :
      {g : Granularity} {c : Currency} {change : ℤ → ℤ} {r : Result MoneyTimeseries} (time : ℤ)
      (f : Filled g c (new_money_timeseries c g) change r)
      → nanos (get calendar time f.result) ≡ change (bucket calendar g time)
  unfolding get value_at new_money_timeseries lookup zero Money.zero_amount
  get-Filled {g = g} {change = change} time f =
      f.changes (bucket calendar f.result.granularity time)
      ∙ zero_+ℤ (change (bucket calendar f.result.granularity time))
      ∙ ap (λ j. change (bucket calendar j time)) f.ready.granularity_is
