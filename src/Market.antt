-- ===== src/Market.antt =====
-- The exchange rates, stock quotes and conversions of frontend/lib/ClientSideModel.tsx, and
-- `utcStartOfDay` of frontend/lib/util/time.tsx.
--
-- Times are numbers of milliseconds, kept exactly as integers of nanoseconds. Rates and prices
-- are bigints that the code carries as numbers; they are exact below 2^53, and here always.
-- `closestTo` of date-fns is a parameter.
pub mod Days
pub mod Conversion
use prosper.Prelude.{
  ℕ, zero, suc, ◌+◌, ◌/◌, String, Option, none, some, List, [], ◌∷◌, ◌++◌, ◌==◌, string_eq,
  if◌then◌else◌, Result, ok, or_throw, ◌>>=◌, no_previous_value,
}
use prosper.Prelude.Int.{
  ℤ, pos, ◌+ℤ◌, ◌-ℤ◌, ◌*ℤ◌, ltb_ℤ, leb_ℤ, int_beq, int_eq, div_trunc, div_floor, pos_part,
}
use prosper.Prelude.Maps.{Assoc, keys, lookup, insert}
use prosper.Prelude.Sort.{sort}
use prosper.Model.Ledger.{Timestamp, timestamp_to_epoch}
use prosper.Model.Currency.{Currency, must_find_by_code}
use prosper.Model.Stock.{Stock, stock_key, key_of}
use prosper.Model.Unit.{stock, currency}
use prosper.Money
use prosper.Money.{Amount}
use prosper.Money.Currency as Money_currency
use prosper.Money.Currency.{AmountWithCurrency, with_currency}
use prosper.Money.Unit.{AmountWithUnit}

abbrev pub ns_per_ms : ℕ
ns_per_ms = 1_000_000

abbrev pub ms_per_day : ℕ
ms_per_day = 86_400_000

-- A day in nanoseconds.
abbrev pub day : ℕ
day = 86_400_000_000_000

-- `new Date(epochMs)` cuts to a whole millisecond, and the UTC date starts at a multiple of a day.
unfoldable pub utc_start_of_day : ℤ → ℤ
utc_start_of_day epoch = div_floor (div_trunc epoch ns_per_ms) ms_per_day *ℤ pos day

abbrev pub Timeseries : Type 0
Timeseries = Assoc ℤ ℤ

-- `!value` of a number that may be missing.
abbrev pub present_int : Option ℤ → Option ℤ
present_int none = none
present_int (some n) = if int_beq n (pos 0) then none else some n

-- `for (let x = …; x < current; x += MS_PER_DAY) timeseries.set(x, prevValue)`, on fuel.
unfoldable pub fill : ℕ → ℤ → ℤ → ℤ → Timeseries → Timeseries
unfolding insert
fill zero x current v ts = ts
fill (suc n) x current v ts =
    let rest = fill n (x +ℤ pos day) current v (insert x v ts) in
    if ltb_ℤ x current then rest else ts

-- The loop over neighbouring days. The rounds of `fill` are those that fit between two days.
unfoldable pub fill_gaps : List ℤ → Timeseries → Result Timeseries
unfolding fill lookup
fill_gaps (prev ∷ current ∷ days) ts = do
  v ← or_throw (present_int (lookup prev ts)) no_previous_value
  fill_gaps (current ∷ days)
      (fill (pos_part (current -ℤ prev) / day + 1) (prev +ℤ pos day) current v ts)
fill_gaps _ ts = ok ts

unfoldable pub backfill_missing_dates : ℤ → Timeseries → Result Timeseries
unfolding fill_gaps utc_start_of_day sort
backfill_missing_dates now ts = fill_gaps (sort leb_ℤ (keys ts ++ utc_start_of_day now ∷ [])) ts

pub record PbExchangeRate : Type 0 where
  pub currency_code_from : String
  pub currency_code_to : String
  pub rate_nanos : ℤ
  pub rate_timestamp : Option Timestamp

pub record PbStockQuote : Type 0 where
  pub stock_exchange : String
  pub stock_ticker : String
  pub price_per_share_nanos : ℤ
  pub quote_timestamp : Option Timestamp

abbrev pub ExchangeRates : Type 0
ExchangeRates = Assoc String (Assoc String Timeseries)

abbrev pub StockQuotes : Type 0
StockQuotes = Assoc String Timeseries

abbrev pub or_empty {ℓ κ} : {K : Type ℓ} {V : Type κ} → Option (Assoc K V) → Assoc K V
or_empty none = []
or_empty (some m) = m

-- One round of the first loop of `ExchangeRates`.
unfoldable pub add_rate : PbExchangeRate → ExchangeRates → Result ExchangeRates
unfolding utc_start_of_day timestamp_to_epoch lookup insert
add_rate r rates = do
  time ← timestamp_to_epoch r.rate_timestamp
  let from_rates = or_empty (lookup r.currency_code_from rates)
  let timeseries = or_empty (lookup r.currency_code_to from_rates)
  let updated = insert (utc_start_of_day time) r.rate_nanos timeseries
  ok (insert r.currency_code_from (insert r.currency_code_to updated from_rates) rates)

unfoldable pub add_rates : List PbExchangeRate → ExchangeRates → Result ExchangeRates
unfolding add_rate
add_rates [] rates = ok rates
add_rates (r ∷ init) rates = do rates' ← add_rate r rates; add_rates init rates'

-- A loop that changes every value of a map in place.
unfoldable pub update_values {ℓ κ} :
    {K : Type ℓ} {V : Type κ} → (V → Result V) → Assoc K V → Result (Assoc K V)
update_values f [] = ok []
update_values f ((k, v) ∷ m) = do v' ← f v; rest ← update_values f m; ok ((k, v') ∷ rest)

unfoldable pub new_exchange_rates : ℤ → List PbExchangeRate → Result ExchangeRates
unfolding add_rates update_values backfill_missing_dates
new_exchange_rates now init = do
  rates ← add_rates init []
  update_values (update_values (backfill_missing_dates now)) rates

unfoldable pub add_quote : PbStockQuote → StockQuotes → Result StockQuotes
unfolding utc_start_of_day timestamp_to_epoch lookup insert stock_key
add_quote r quotes = do
  time ← timestamp_to_epoch r.quote_timestamp
  let key = stock_key (record { exchange = r.stock_exchange; ticker = r.stock_ticker })
  let timeseries = or_empty (lookup key quotes)
  ok (insert key (insert (utc_start_of_day time) r.price_per_share_nanos timeseries) quotes)

unfoldable pub add_quotes : List PbStockQuote → StockQuotes → Result StockQuotes
unfolding add_quote
add_quotes [] quotes = ok quotes
add_quotes (r ∷ init) quotes = do quotes' ← add_quote r quotes; add_quotes init quotes'

unfoldable pub new_stock_quotes : ℤ → List PbStockQuote → Result StockQuotes
unfolding add_quotes update_values backfill_missing_dates
new_stock_quotes now init = do
  quotes ← add_quotes init []
  update_values (backfill_missing_dates now) quotes

pub record Exchange : Type 0 where
  pub exchange_rates : ExchangeRates
  pub stock_quotes : StockQuotes

-- `NANOS_MULTIPLIER`
abbrev pub nanos_multiplier : ℕ
nanos_multiplier = 1_000_000_000

-- `(a.nanos() * rate) / NANOS_MULTIPLIER`
unfoldable pub scale : ℤ → ℤ → ℤ
scale nanos rate = div_trunc (nanos *ℤ rate) nanos_multiplier

module _ (closest_to : ℤ → List ℤ → Option ℤ) where
  -- The end of `findRate` and of `findQuote`: the value of the day, or of the closest day.
  unfoldable pub find_in_history : Timeseries → ℤ → Option ℤ
  unfolding utc_start_of_day lookup
  find_in_history history when = elim (present_int (lookup (utc_start_of_day when) history)) [
    | some rate ↦ some rate
    | none ↦ elim (closest_to when (keys history)) [
      | none ↦ none
      | some closest ↦ lookup closest history
    ]
  ]

  unfoldable pub find_rate : ExchangeRates → Currency → Currency → ℤ → Option ℤ
  unfolding find_in_history lookup
  find_rate rates from to when = elim (lookup from.code rates) [
    | none ↦ none
    | some rates_from ↦ elim (lookup to.code rates_from) [
      | none ↦ none
      | some history ↦ find_in_history history when
    ]
  ]

  unfoldable pub exchange_currency :
      ExchangeRates → AmountWithCurrency → Currency → ℤ → Option AmountWithCurrency
  unfolding find_rate scale Money.is_zero Money_currency.zero
  exchange_currency rates a target when =
      if a.currency.code == target.code
      then some a
      else if Money.is_zero a.amount
      then some (Money_currency.zero target)
      else elim (present_int (find_rate rates a.currency target when)) [
        | none ↦ none
        | some rate ↦
            some (with_currency (record { amount_nanos = scale a.amount.amount_nanos rate }) target)
      ]

  unfoldable pub find_quote : StockQuotes → Stock → ℤ → Option ℤ
  unfolding find_in_history lookup stock_key
  find_quote quotes s when = elim (lookup (stock_key (key_of s)) quotes) [
    | none ↦ none
    | some history ↦ find_in_history history when
  ]

  -- `StockQuotes.exchange`: the value of the shares in the stock's own currency.
  unfoldable pub exchange_shares :
      StockQuotes → Amount → Stock → ℤ → Result (Option AmountWithCurrency)
  unfolding find_quote scale Money.is_zero Money_currency.zero must_find_by_code
  exchange_shares quotes a s when = do
    own ← must_find_by_code s.currency_code
    ok (
        if Money.is_zero a
        then some (Money_currency.zero own)
        else elim (present_int (find_quote quotes s when)) [
          | none ↦ none
          | some price ↦
              some (with_currency (record { amount_nanos = scale a.amount_nanos price }) own)
        ])

  unfoldable pub exchange_stock :
      Exchange → Amount → Stock → Currency → ℤ → Result (Option AmountWithCurrency)
  unfolding exchange_shares exchange_currency
  exchange_stock x a s target when = do
    shares ← exchange_shares x.stock_quotes a s when
    ok (elim shares [ none ↦ none | some own ↦ exchange_currency x.exchange_rates own target when ])

  -- `StockAndCurrencyExchange.exchange`
  unfoldable pub exchange :
      Exchange → AmountWithUnit → Currency → ℤ → Result (Option AmountWithCurrency)
  unfolding exchange_stock exchange_currency
  exchange x amount target when = elim amount.unit [
    | currency c ↦
        ok (exchange_currency x.exchange_rates (with_currency amount.amount c) target when)
    | stock s ↦ exchange_stock x amount.amount s target when
  ]
