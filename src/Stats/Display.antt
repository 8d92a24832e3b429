-- ===== src/Stats/Display.antt =====
-- What the exchange of frontend/lib/ClientSideModel.tsx gives is in the currency asked for.
use prosper.Prelude.{
  ◌≡◌, refl, subst, Bool, true, false, Option, none, some, List, ok, ok-injective, ◌==◌, string_eq,
  if◌then◌else◌, >>=-eq-ok,
}
use prosper.Prelude.Int.{ℤ}
use prosper.Model.Currency.{Currency}
use prosper.Model.Unit.{MoneyUnit, stock, currency}
use prosper.Money
use prosper.Money.{Amount}
use prosper.Money.Currency.{AmountWithCurrency, zero, with_currency}
use prosper.Market.{Exchange, exchange_currency, exchange_stock, exchange_shares, scale}
use prosper.Transaction.Amounts.{convert_by_unit}

-- What is exchanged is in the currency.
abbrev pub IsIn : Currency → Option AmountWithCurrency → Type 0
IsIn c none = Unit
IsIn c (some a) = (a.currency.code == c.code) ≡ true

if-IsIn :
    (c : Currency) (b : Bool) (p q : Option AmountWithCurrency)
    → (b ≡ true → IsIn c p)
    → IsIn c q
    → IsIn c (if b then p else q)
if-IsIn c true p q h k = h refl
if-IsIn c false p q h k = k

pub zero-IsIn : (c : Currency) → IsIn c (some (zero c))
unfolding zero
zero-IsIn c = (string_eq.test_iff c.code c.code).1 refl

code_refl : (c : Currency) → (c.code == c.code) ≡ true
code_refl c = (string_eq.test_iff c.code c.code).1 refl

at_rate :
    (c : Currency) (amount : ℤ) (rate : Option ℤ)
    → IsIn c (elim rate [
      | none ↦ none
      | some rate ↦ some (with_currency (record { amount_nanos = scale amount rate }) c)
    ])
at_rate c amount none = tt
at_rate c amount (some rate) = code_refl c

module _ (closest_to : ℤ → List ℤ → Option ℤ) (x : Exchange) (c : Currency) where
  exchange_currency-IsIn :
      (a : AmountWithCurrency) (when : ℤ)
      → IsIn c (exchange_currency closest_to x.exchange_rates a c when)
  unfolding exchange_currency zero
  exchange_currency-IsIn a when =
      if-IsIn c (a.currency.code == c.code) (some a) _ (λ e. e)
        (if-IsIn c (Money.is_zero a.amount) (some (zero c)) _ (λ e. code_refl c)
          (at_rate c a.amount.amount_nanos _))

  shares_IsIn :
      (o : Option AmountWithCurrency) (when : ℤ)
      → IsIn c (elim o [
        | none ↦ none
        | some own ↦ exchange_currency closest_to x.exchange_rates own c when
      ])
  shares_IsIn none when = tt
  shares_IsIn (some own) when = exchange_currency-IsIn own when

  pub convert_by_unit-IsIn :
      (unit : MoneyUnit) (a : Amount) (when : ℤ) (o : Option AmountWithCurrency)
      → convert_by_unit closest_to x unit a c when ≡ ok o
      → IsIn c o
  unfolding convert_by_unit exchange_stock
  convert_by_unit-IsIn (currency from) a when o h =
      subst (IsIn c) (ok-injective h) (exchange_currency-IsIn (with_currency a from) when)
  convert_by_unit-IsIn (stock s) a when o h =
      let (shares, p, q) = >>=-eq-ok (exchange_shares closest_to x.stock_quotes a s when) _ h in
      subst (IsIn c) (ok-injective q) (shares_IsIn shares when)
