-- ===== src/Model/Unit.antt =====
-- frontend/lib/model/Unit.tsx: the unit of an account, a stock or a currency.
use prosper.Prelude.{Bool, true, false}
use prosper.Model.Currency.{Currency}
use prosper.Model.Stock.{Stock}

pub data MoneyUnit : Type 0 where
  stock : Stock → MoneyUnit
  currency : Currency → MoneyUnit

unfoldable pub is_currency : MoneyUnit → Bool
is_currency (stock _) = false
is_currency (currency _) = true

unfoldable pub is_stock : MoneyUnit → Bool
is_stock (stock _) = true
is_stock (currency _) = false
