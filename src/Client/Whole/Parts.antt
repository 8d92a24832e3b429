-- ===== src/Client/Whole/Parts.antt =====
-- `modelFromDatabaseData` of frontend/lib/ClientSideModel.tsx beside the three calls that build the
-- parts of the model.
use prosper.Prelude.{
  ℕ, Option, List, map, ok, map_result, ◌≡◌, refl, sym, ap, ◌∙◌, ◌↔◌, >>=-eq-ok, ok-injective,
}
use prosper.Prelude.Int.{ℤ}
use prosper.Prelude.Sort.{sort}
use prosper.Model.Ledger.{PbTransaction}
use prosper.Model.Stock.{Stock}
use prosper.Model.BankAccount.{Bank, BankAccount}
use prosper.Model.Tag.{Trip, tag_model_from_db, trip_model_from_db}
use prosper.Market.{Exchange, ExchangeRates, StockQuotes, new_exchange_rates, new_stock_quotes}
use prosper.Category.{Category, category_model_from_db}
use prosper.Category.Order.{sort_categories}
use prosper.Transaction.{Transaction}
use prosper.Transaction.FromDb.{transaction_model_from_db}
use prosper.Versions.{latest_version_only}
use prosper.Links.{TransactionLink, transaction_link_model_from_db}
use prosper.Client.{
  banks_model_from_database_data, transaction_le, TransactionDataModel, all_transactions_from_db,
  market_model_from_db,
}
use prosper.Client.Whole.{
  AppData, CoreDataModel, AllClientDataModel, core_model_from_db, model_from_database_data,
}

-- A model of the three parts.
abbrev whole_of : CoreDataModel → TransactionDataModel → Exchange → AllClientDataModel
whole_of core t x = record {
  core = core;
  transactions = t.transactions;
  exchange = x;
  transaction_links = t.transaction_links;
}

whole_of_congr :
    {core core' : CoreDataModel} {t t' : TransactionDataModel} {x x' : Exchange}
    → core ≡ core'
    → t ≡ t'
    → x ≡ x'
    → ok (whole_of core t x) ≡ ok (whole_of core' t' x')
whole_of_congr c d e = cc

module _ (fuel : ℕ) (now : ℤ) (db : AppData) where
  -- What the calls inside give.
  record Pieces : Type 0 where
    categories : Option (List Category)
    rates : ExchangeRates
    quotes : StockQuotes
    banks : List Bank × List BankAccount × List Stock
    trips : List Trip
    active : List PbTransaction
    converted : List Transaction
    links : List TransactionLink
    categories_are : sort_categories fuel (map category_model_from_db db.categories) ≡ ok categories
    rates_are : new_exchange_rates now db.rates ≡ ok rates
    quotes_are : new_stock_quotes now db.quotes ≡ ok quotes
    banks_are : banks_model_from_database_data db.banks db.bank_accounts db.stocks ≡ ok banks
    trips_are : map_result trip_model_from_db db.trips ≡ ok trips
    active_are : latest_version_only db.transactions ≡ ok active
    converted_are :
        map_result (λ tx. transaction_model_from_db tx db.ledger_accounts) active ≡ ok converted
    links_are :
        transaction_link_model_from_db db.links (sort transaction_le converted) db.transactions
        ≡ ok links

  module _ (p : Pieces) where
    abbrev core_of : CoreDataModel
    core_of = record {
      categories = p.categories;
      banks = p.banks.0;
      bank_accounts = p.banks.1;
      stocks = p.banks.2;
      trips = p.trips;
      tags = map tag_model_from_db db.tags;
    }

    abbrev transactions_of : TransactionDataModel
    transactions_of = record {
      transactions = sort transaction_le p.converted;
      transaction_links = p.links;
    }

    abbrev exchange_of : Exchange
    exchange_of = record { exchange_rates = p.rates; stock_quotes = p.quotes }

    core_returns : core_model_from_db fuel db ≡ ok core_of
    unfolding core_model_from_db
    core_returns = rw (p.categories_are, p.banks_are, p.trips_are) refl

    transactions_return :
        all_transactions_from_db db.transactions db.ledger_accounts db.links ≡ ok transactions_of
    unfolding all_transactions_from_db
    transactions_return = rw (p.active_are, p.converted_are, p.links_are) refl

    market_returns : market_model_from_db now db.rates db.quotes ≡ ok exchange_of
    unfolding market_model_from_db
    market_returns = rw (p.rates_are, p.quotes_are) refl

    whole_returns :
        model_from_database_data fuel now db ≡ ok (whole_of core_of transactions_of exchange_of)
    unfolding model_from_database_data
    whole_returns =
        rw
          (
            p.categories_are, p.rates_are, p.quotes_are, p.banks_are, p.trips_are, p.active_are,
            p.converted_are, p.links_are,
          )
          refl

  whole_pieces : (m : AllClientDataModel) → model_from_database_data fuel now db ≡ ok m → Pieces
  unfolding model_from_database_data
  whole_pieces m h =
      let (cats, e1, r1) =
        >>=-eq-ok (sort_categories fuel (map category_model_from_db db.categories)) _ h in
      let (rates, e2, r2) = >>=-eq-ok (new_exchange_rates now db.rates) _ r1 in
      let (quotes, e3, r3) = >>=-eq-ok (new_stock_quotes now db.quotes) _ r2 in
      let (banks, e4, r4) =
        >>=-eq-ok (banks_model_from_database_data db.banks db.bank_accounts db.stocks) _ r3 in
      let (trips, e5, r5) = >>=-eq-ok (map_result trip_model_from_db db.trips) _ r4 in
      let (active, e6, r6) = >>=-eq-ok (latest_version_only db.transactions) _ r5 in
      let (converted, e7, r7) =
        >>=-eq-ok (map_result (λ tx. transaction_model_from_db tx db.ledger_accounts) active) _
          r6 in
      let (links, e8, _) =
        >>=-eq-ok
          (transaction_link_model_from_db db.links (sort transaction_le converted) db.transactions)
          _ r7 in
      record {
        categories = cats;
        rates = rates;
        quotes = quotes;
        banks = banks;
        trips = trips;
        active = active;
        converted = converted;
        links = links;
        categories_are = e1;
        rates_are = e2;
        quotes_are = e3;
        banks_are = e4;
        trips_are = e5;
        active_are = e6;
        converted_are = e7;
        links_are = e8;
      }

  parts_pieces :
      (c : CoreDataModel) (t : TransactionDataModel) (x : Exchange)
      → core_model_from_db fuel db ≡ ok c
      → all_transactions_from_db db.transactions db.ledger_accounts db.links ≡ ok t
      → market_model_from_db now db.rates db.quotes ≡ ok x
      → Pieces
  unfolding core_model_from_db all_transactions_from_db market_model_from_db
  parts_pieces c t x core transactions market =
      let (cats, e1, r1) =
        >>=-eq-ok (sort_categories fuel (map category_model_from_db db.categories)) _ core in
      let (rates, e2, r2) = >>=-eq-ok (new_exchange_rates now db.rates) _ market in
      let (quotes, e3, _) = >>=-eq-ok (new_stock_quotes now db.quotes) _ r2 in
      let (banks, e4, r4) =
        >>=-eq-ok (banks_model_from_database_data db.banks db.bank_accounts db.stocks) _ r1 in
      let (trips, e5, _) = >>=-eq-ok (map_result trip_model_from_db db.trips) _ r4 in
      let (active, e6, r6) = >>=-eq-ok (latest_version_only db.transactions) _ transactions in
      let (converted, e7, r7) =
        >>=-eq-ok (map_result (λ tx. transaction_model_from_db tx db.ledger_accounts) active) _
          r6 in
      let (links, e8, _) =
        >>=-eq-ok
          (transaction_link_model_from_db db.links (sort transaction_le converted) db.transactions)
          _ r7 in
      record {
        categories = cats;
        rates = rates;
        quotes = quotes;
        banks = banks;
        trips = trips;
        active = active;
        converted = converted;
        links = links;
        categories_are = e1;
        rates_are = e2;
        quotes_are = e3;
        banks_are = e4;
        trips_are = e5;
        active_are = e6;
        converted_are = e7;
        links_are = e8;
      }

  -- The call returns a model exactly when the three calls for its parts return the parts of it.
  pub model_from_database_data_parts :
      (m : AllClientDataModel)
      → (model_from_database_data fuel now db ≡ ok m)
        ↔ (core_model_from_db fuel db ≡ ok m.core)
          × (all_transactions_from_db db.transactions db.ledger_accounts db.links
              ≡ ok (record {
                transactions = m.transactions;
                transaction_links = m.transaction_links;
              }))
          × (market_model_from_db now db.rates db.quotes ≡ ok m.exchange)
  model_from_database_data_parts m = (
    λ h.
        let p = whole_pieces m h in
        let same = ok-injective (sym (whole_returns p) ∙ h) in
        (
          core_returns p ∙ ap (λ n. ok n.core) same,
          transactions_return p
              ∙ ap
                  (λ n. ok (record {
                    transactions = n.transactions;
                    transaction_links = n.transaction_links;
                  }))
                  same,
          market_returns p ∙ ap (λ n. ok n.exchange) same,
        ),
    λ h.
        let p = parts_pieces _ _ _ h.0 h.1 h.2 in
        whole_returns p
        ∙ whole_of_congr (ok-injective (sym (core_returns p) ∙ h.0))
            (ok-injective (sym (transactions_return p) ∙ h.1))
            (ok-injective (sym (market_returns p) ∙ h.2)),
  )
