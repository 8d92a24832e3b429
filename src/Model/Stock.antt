-- ===== src/Model/Stock.antt =====
-- frontend/lib/model/Stock.tsx: a stock and its (exchange, ticker) key.
use Prim.Native.String.{◌++◌}
use prosper.Prelude.{String, Bool, ◌&&◌, ◌==◌, string_eq}

pub record StockKey : Type 0 where
  pub exchange : String
  pub ticker : String

pub record Stock : Type 0 where
  pub name : String
  pub currency_code : String
  pub ticker : String
  pub exchange : String

pub record PbStock : Type 0 where
  pub exchange : String
  pub ticker : String
  pub name : String
  pub currency_code : String

unfoldable pub stock_model_from_db : PbStock → Stock
stock_model_from_db init = record {
  name = init.name;
  currency_code = init.currency_code;
  ticker = init.ticker;
  exchange = init.exchange;
}

-- The key that a stock carries in its fields.
abbrev pub key_of : Stock → StockKey
key_of s = record { exchange = s.exchange; ticker = s.ticker }

unfoldable pub stock_key : StockKey → String
stock_key stock = stock.exchange ++ (":" ++ stock.ticker)

unfoldable pub stock_keys_equal : StockKey → StockKey → Bool
stock_keys_equal a b = a.exchange == b.exchange && a.ticker == b.ticker
