-- ===== src/Client.antt =====
-- frontend/lib/ClientSideModel.tsx: the model that the client builds of what the backend sends,
-- the banks and accounts in the order of the screen and the transactions in the order of time.
pub mod Banks
pub mod Order
pub mod Whole
pub mod Tests
use prosper.Prelude.{
  ℕ, Bool, List, [], ◌∷◌, map, keep, ◌==◌, nat_eq, if◌then◌else◌, leb, Result, ok, or_throw, ◌>>=◌,
  map_result, bank_not_found,
}
use prosper.Prelude.Int.{ℤ, leb_ℤ, int_eq}
use prosper.Prelude.Maps.{Assoc, lookup, from_entries}
use prosper.Prelude.Sort.{sort}
use prosper.Model.Ledger.{PbBank, PbBankAccount, PbTransaction, PbTransactionLink, LedgerAccount}
use prosper.Model.Stock.{Stock, PbStock, stock_model_from_db}
use prosper.Model.BankAccount.{Bank, BankAccount, bank_model_from_db, bank_account_model_from_db}
use prosper.Market.{Exchange, PbExchangeRate, PbStockQuote, new_exchange_rates, new_stock_quotes}
use prosper.Transaction.{Transaction, id_of, epoch_of}
use prosper.Transaction.FromDb.{transaction_model_from_db}
use prosper.Versions.{latest_version_only}
use prosper.Links.{TransactionLink, transaction_link_model_from_db}

abbrev pub bank_le : Bank → Bank → Bool
bank_le a b = leb_ℤ a.display_order b.display_order

-- `new Map<number, Bank>(banks.map(b => [b.id, b]))`
unfoldable pub bank_by_id : List Bank → Assoc ℕ Bank
unfolding from_entries
bank_by_id banks = from_entries (map (λ (b : Bank). (b.id, b)) banks) []

-- The entry of an account in `bankByBankAccountId`.
unfoldable pub account_entry : Assoc ℕ Bank → BankAccount → Result (ℕ × Bank)
unfolding lookup
account_entry by_bank a = do
  bank ← or_throw (lookup a.bank_id by_bank) bank_not_found
  ok (a.id, bank)

-- An account with the bank that the comparator looks up for it.
unfoldable pub with_bank : Assoc ℕ Bank → BankAccount → Result (Bank × BankAccount)
unfolding lookup
with_bank by_account a = do bank ← or_throw (lookup a.id by_account) bank_not_found; ok (bank, a)

-- The comparator of the accounts, on the banks that it has looked up: by the bank's place, then by
-- the account's.
unfoldable pub account_le : Bank × BankAccount → Bank × BankAccount → Bool
account_le (bank_a, a) (bank_b, b) =
    if bank_a.display_order == bank_b.display_order
    then leb_ℤ a.display_order b.display_order
    else leb_ℤ bank_a.display_order bank_b.display_order

-- The comparator looks up the bank of an account at each comparison; here once, before the sort.
unfoldable pub banks_model_from_database_data :
    List PbBank
    → List PbBankAccount
    → List PbStock
    → Result (List Bank × List BankAccount × List Stock)
unfolding bank_by_id account_entry with_bank account_le sort map_result from_entries
    stock_model_from_db bank_model_from_db bank_account_model_from_db
banks_model_from_database_data db_banks db_bank_accounts db_stocks =
    let banks = sort bank_le (map bank_model_from_db db_banks) in
    let bank_accounts = map bank_account_model_from_db db_bank_accounts in
    (do
      entries ← map_result (account_entry (bank_by_id banks)) bank_accounts
      ranked ← map_result (with_bank (from_entries entries [])) bank_accounts
      ok (banks, map (λ r. r.1) (sort account_le ranked), map stock_model_from_db db_stocks))

-- `compareTransactions`: later first, and among equal times the higher id first.
unfoldable pub transaction_le : Transaction → Transaction → Bool
transaction_le a b =
    if epoch_of b == epoch_of a then leb (id_of b) (id_of a) else leb_ℤ (epoch_of b) (epoch_of a)

pub record TransactionDataModel : Type 0 where
  pub transactions : List Transaction
  pub transaction_links : List TransactionLink

-- `transactionModelFromDB` of the list of all transactions.
unfoldable pub all_transactions_from_db :
    List PbTransaction → List LedgerAccount → List PbTransactionLink → Result TransactionDataModel
unfolding latest_version_only transaction_model_from_db transaction_le sort map_result
    transaction_link_model_from_db
all_transactions_from_db db_transactions ledger_accounts links = do
  active ← latest_version_only db_transactions
  converted ← map_result (λ tx. transaction_model_from_db tx ledger_accounts) active
  let transactions = sort transaction_le converted
  transaction_links ← transaction_link_model_from_db links transactions db_transactions
  ok (record { transactions = transactions; transaction_links = transaction_links })

unfoldable pub market_model_from_db : ℤ → List PbExchangeRate → List PbStockQuote → Result Exchange
unfolding new_exchange_rates new_stock_quotes
market_model_from_db now rates quotes = do
  exchange_rates ← new_exchange_rates now rates
  stock_quotes ← new_stock_quotes now quotes
  ok (record { exchange_rates = exchange_rates; stock_quotes = stock_quotes })
