-- ===== src/Market/Conversion.antt =====
-- The currency that a conversion of frontend/lib/ClientSideModel.tsx ends in.
use prosper.Prelude.{
  ◌≡◌, true, Option, some, List, ◌==◌, string_eq, arith, Bool-cases, Option-cases, inl, inr, ok,
  >>=-eq-ok, ok-injective,
}
use prosper.Prelude.Int.{ℤ}
use prosper.Prelude.Maps.{beq_refl}
use prosper.Model.Currency.{Currency}
use prosper.Model.Stock.{Stock}
use prosper.Model.Unit.{MoneyUnit, stock, currency}
use prosper.Money
use prosper.Money.{Amount}
use prosper.Money.Currency as Money_currency
use prosper.Money.Currency.{AmountWithCurrency, with_currency}
use prosper.Money.Unit.{AmountWithUnit, with_unit}
use prosper.Market.{
  Exchange, ExchangeRates, present_int, find_rate, exchange_currency, exchange_shares,
  exchange_stock, exchange,
}

module _ (closest_to : ℤ → List ℤ → Option ℤ) where
  exchange_currency_in_target :
      (rates : ExchangeRates) (a : AmountWithCurrency) (target : Currency) (when : ℤ)
      (v : AmountWithCurrency)
      → exchange_currency closest_to rates a target when ≡ some v
      → (v.currency.code == target.code) ≡ true
  unfolding exchange_currency Money_currency.zero
  exchange_currency_in_target rates a target when v h =
      elim (Bool-cases (a.currency.code == target.code)) [
        | inl e ↦ let h' = rw e at h in let same : a ≡ v = cc in rw (← same) e
        | inr e ↦ elim (Bool-cases (Money.is_zero a.amount)) [
          | inl z ↦
              let h' = rw (e, z) at h in
              let same : target ≡ v.currency = cc in rw (← same) (beq_refl target.code)
          | inr z ↦
              elim (Option-cases
                (present_int (find_rate closest_to rates a.currency target when))) [
                  | inl f ↦ let h' = rw (e, z, f) at h in absurd (ground arith)
                  | inr (rate, f) ↦
                      let h' = rw (e, z, f) at h in
                      let same : target ≡ v.currency = cc in rw (← same) (beq_refl target.code)
                ]
        ]
      ]

  exchange_stock_in_target :
      (x : Exchange) (a : Amount) (s : Stock) (target : Currency) (when : ℤ)
      (v : AmountWithCurrency)
      → exchange_stock closest_to x a s target when ≡ ok (some v)
      → (v.currency.code == target.code) ≡ true
  unfolding exchange_stock
  exchange_stock_in_target x a s target when v h =
      let (shares, found, rest) =
        >>=-eq-ok (exchange_shares closest_to x.stock_quotes a s when) _ h in
      elim (Option-cases shares) [
        | inl e ↦ let r = rw e at rest in absurd (ground arith)
        | inr (own, e) ↦
            exchange_currency_in_target x.exchange_rates own target when v
              (let r = rw e at rest in cc)
      ]

  by_unit_in_target :
      (x : Exchange) (a : Amount) (unit : MoneyUnit) (target : Currency) (when : ℤ)
      (v : AmountWithCurrency)
      → exchange closest_to x (with_unit a unit) target when ≡ ok (some v)
      → (v.currency.code == target.code) ≡ true
  unfolding exchange
  by_unit_in_target x a (currency c) target when v h =
      exchange_currency_in_target x.exchange_rates (with_currency a c) target when v
        (ok-injective h)
  by_unit_in_target x a (stock s) target when v h = exchange_stock_in_target x a s target when v h

  -- Whatever is converted, the result is in the target currency.
  pub exchange_in_target :
      (x : Exchange) (a : AmountWithUnit) (target : Currency) (when : ℤ) (v : AmountWithCurrency)
      → exchange closest_to x a target when ≡ ok (some v)
      → (v.currency.code == target.code) ≡ true
  exchange_in_target x a target when v h = by_unit_in_target x a.amount a.unit target when v h
