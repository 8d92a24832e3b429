-- ===== src/Model/Currency.antt =====
-- frontend/lib/model/Currency.tsx: the known currencies. `formatCurrency` calls the Intl library
-- and is not modelled.
use prosper.Prelude.{
  String, Option, List, [], ◌∷◌, map, ◌==◌, string_eq, find, Result, or_throw, currency_not_found,
}

pub record Currency : Type 0 where
  pub code : String

abbrev pub currency_of : String → Currency
currency_of code = record { code = code }

abbrev currencies : List Currency
currencies = map currency_of ("RUB" ∷ "USD" ∷ "GBP" ∷ "EUR" ∷ "CHF" ∷ [])

unfoldable pub find_by_code : String → Option Currency
unfolding find
find_by_code code = find (λ (c : Currency). c.code == code) currencies

unfoldable pub must_find_by_code : String → Result Currency
unfolding find_by_code
must_find_by_code code = or_throw (find_by_code code) currency_not_found
