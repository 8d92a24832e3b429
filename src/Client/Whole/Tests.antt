-- ===== src/Client/Whole/Tests.antt =====
-- Tests of `modelFromDatabaseData` of frontend/lib/ClientSideModel.tsx, and the theorem at a concrete
-- input.
use prosper.Prelude.{◌≡◌, refl, ◌↔◌, none, some, [], ◌∷◌, map, ok}
use prosper.Prelude.Int.{pos}
use prosper.Model.Ledger.{PbCategory}
use prosper.Model.BankAccount.{bank_model_from_db, bank_account_model_from_db}
use prosper.Category.{category_model_from_db}
use prosper.Client.{all_transactions_from_db, market_model_from_db}
use prosper.Client.Tests.{pb_bank, pb_account}
use prosper.Client.Whole.{AppData, AllClientDataModel, core_model_from_db, model_from_database_data}
use prosper.Client.Whole.Parts.{model_from_database_data_parts}

abbrev rent : PbCategory
rent = record { id = 4; name = "Rent"; display_order = pos 9; parent_category_id = some 7 }

abbrev home : PbCategory
home = record { id = 7; name = "Home"; display_order = pos 2; parent_category_id = none }

abbrev trips_category : PbCategory
trips_category = record { id = 5; name = "Trips"; display_order = pos 1; parent_category_id = none }

abbrev small_data : AppData
small_data = record {
  categories = rent ∷ home ∷ trips_category ∷ [];
  banks = pb_bank 1 20 ∷ [];
  bank_accounts = pb_account 1 5 ∷ [];
  stocks = [];
  trips = [];
  tags = [];
  transactions = [];
  ledger_accounts = [];
  links = [];
  rates = [];
  quotes = [];
}

abbrev small_model : AllClientDataModel
small_model = record {
  core = record {
    categories = some (map category_model_from_db (trips_category ∷ home ∷ rent ∷ []));
    banks = map bank_model_from_db (pb_bank 1 20 ∷ []);
    bank_accounts = map bank_account_model_from_db (pb_account 1 5 ∷ []);
    stocks = [];
    trips = [];
    tags = [];
  };
  transactions = [];
  exchange = record { exchange_rates = []; stock_quotes = [] };
  transaction_links = [];
}

-- A category is followed by its children.
small_data_read : model_from_database_data 2 (pos 0) small_data ≡ ok small_model
unfolding model_from_database_data category_model_from_db
small_data_read = refl

parts_of_small_data :
    (model_from_database_data 2 (pos 0) small_data ≡ ok small_model)
    ↔ (core_model_from_db 2 small_data ≡ ok small_model.core)
      × (all_transactions_from_db [] [] []
          ≡ ok (record { transactions = []; transaction_links = [] }))
      × (market_model_from_db (pos 0) [] [] ≡ ok small_model.exchange)
parts_of_small_data = model_from_database_data_parts 2 (pos 0) small_data small_model
