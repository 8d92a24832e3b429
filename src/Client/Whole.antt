-- ===== src/Client/Whole.antt =====
-- `coreModelFromDB` and `modelFromDatabaseData` of frontend/lib/ClientSideModel.tsx.
--
-- `fuel` is for the traversal of the categories. A `none` stands for a traversal without enough
-- of it, as the categories of the model.
pub mod Parts
pub mod Tests
use prosper.Prelude.{
  ℕ, Option, List, map, Result, ok, map_result, ◌>>=◌, ◌≡◌, refl, sym, ap, ◌∙◌, ◌↔◌, >>=-eq-ok,
  ok-injective,
}
use prosper.Prelude.Int.{ℤ}
use prosper.Prelude.Sort.{sort}
use prosper.Model.Ledger.{
  PbBank, PbBankAccount, PbCategory, PbTag, PbTrip, PbTransaction, PbTransactionLink, LedgerAccount,
}
use prosper.Model.Stock.{Stock, PbStock}
use prosper.Model.BankAccount.{Bank, BankAccount}
use prosper.Model.Tag.{Tag, Trip, tag_model_from_db, trip_model_from_db}
use prosper.Market.{
  Exchange, ExchangeRates, StockQuotes, PbExchangeRate, PbStockQuote, new_exchange_rates,
  new_stock_quotes,
}
use prosper.Category.{Category, category_model_from_db}
use prosper.Category.Order.{sort_categories}
use prosper.Transaction.{Transaction}
use prosper.Transaction.FromDb.{transaction_model_from_db}
use prosper.Versions.{latest_version_only}
use prosper.Links.{TransactionLink, transaction_link_model_from_db}
use prosper.Client.{
  banks_model_from_database_data, transaction_le, TransactionDataModel, all_transactions_from_db,
  market_model_from_db,
}

-- The lists that the backend sends.
pub record AppData : Type 0 where
  pub categories : List PbCategory
  pub banks : List PbBank
  pub bank_accounts : List PbBankAccount
  pub stocks : List PbStock
  pub trips : List PbTrip
  pub tags : List PbTag
  pub transactions : List PbTransaction
  pub ledger_accounts : List LedgerAccount
  pub links : List PbTransactionLink
  pub rates : List PbExchangeRate
  pub quotes : List PbStockQuote

pub record CoreDataModel : Type 0 where
  pub categories : Option (List Category)
  pub banks : List Bank
  pub bank_accounts : List BankAccount
  pub stocks : List Stock
  pub trips : List Trip
  pub tags : List Tag

pub record AllClientDataModel : Type 0 where
  pub core : CoreDataModel
  pub transactions : List Transaction
  pub exchange : Exchange
  pub transaction_links : List TransactionLink

unfoldable pub core_model_from_db : ℕ → AppData → Result CoreDataModel
unfolding sort_categories banks_model_from_database_data map_result
core_model_from_db fuel db = do
  categories ← sort_categories fuel (map category_model_from_db db.categories)
  (banks, bank_accounts, stocks) ←
      banks_model_from_database_data db.banks db.bank_accounts db.stocks
  trips ← map_result trip_model_from_db db.trips
  ok (record {
    categories = categories;
    banks = banks;
    bank_accounts = bank_accounts;
    stocks = stocks;
    trips = trips;
    tags = map tag_model_from_db db.tags;
  })

-- The record of the code is flat; here the fields that `CoreDataModel` has are together.
unfoldable pub model_from_database_data : ℕ → ℤ → AppData → Result AllClientDataModel
unfolding sort_categories banks_model_from_database_data map_result new_exchange_rates
    new_stock_quotes latest_version_only transaction_model_from_db sort transaction_le
    transaction_link_model_from_db
model_from_database_data fuel now db = do
  categories ← sort_categories fuel (map category_model_from_db db.categories)
  exchange_rates ← new_exchange_rates now db.rates
  stock_quotes ← new_stock_quotes now db.quotes
  (banks, bank_accounts, stocks) ←
      banks_model_from_database_data db.banks db.bank_accounts db.stocks
  trips ← map_result trip_model_from_db db.trips
  active ← latest_version_only db.transactions
  converted ← map_result (λ tx. transaction_model_from_db tx db.ledger_accounts) active
  let transactions = sort transaction_le converted
  transaction_links ← transaction_link_model_from_db db.links transactions db.transactions
  ok (record {
    core = record {
      categories = categories;
      banks = banks;
      bank_accounts = bank_accounts;
      stocks = stocks;
      trips = trips;
      tags = map tag_model_from_db db.tags;
    };
    transactions = transactions;
    exchange = record { exchange_rates = exchange_rates; stock_quotes = stock_quotes };
    transaction_links = transaction_links;
  })
