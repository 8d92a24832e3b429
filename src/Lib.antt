-- ===== src/Lib.antt =====
-- Prosper, an expense tracking application: the model of the client's data, frontend/lib.
--
-- The backend keeps a double-entry ledger. The client reads it over gRPC, turns each ledger
-- transaction into one of five kinds, and computes balances, net worth, conversions between
-- currencies and stocks, and searches from the list of all transactions.
--
-- How the parts interact. The messages of the backend (Model.Ledger) go through
-- `latestVersionOnly` (Versions), which drops the edits that later ones supersede, and through
-- the conversions of each kind (Transaction.FromDb). The links between transactions are resolved
-- on the result (Links), and Client orders banks, accounts and transactions for the screen.
-- Market holds exchange rates and stock quotes by day and converts amounts (Money). Balances
-- sweeps once over the transactions, and asks Market for the value of a snapshot. Category and
-- Search read the finished model. A form is made of a transaction or of a draft, changed by the user,
-- validated, and sent as a message that records it.
--
-- Which file models what; a child of a module holds lemmas, theorems or tests on it.
--   Prelude: lists, maps, sorting, signed integers and results, shared by all.
--   Money, Money.Currency, Money.Unit: Amount.tsx, AmountWithCurrency.tsx, AmountWithUnit.tsx.
--   Model: the files of model/ for currencies, stocks, units, banks and accounts, tags and
--     trips, and the messages of grpc/gen/prosper/v1/ledger.ts.
--   Transaction: model/transaction, the five kinds and their guards; FromDb has
--     `transactionModelFromDB` and its five conversions, Accessors the lookups, Amounts amounts.tsx.
--   Market: `ExchangeRates`, `StockQuotes`, `backfillMissingDates` and `Exchange` of
--     ClientSideModel.tsx.
--   Versions, Client: the rest of ClientSideModel.tsx, `latestVersionOnly` in Versions, and
--     `coreModelFromDB` and `modelFromDatabaseData` in Client.Whole.
--   Category: model/Category.tsx, with `sortCategories` in Category.Order. The nodes are shared and
--     `getDescendants` changes one, so the tree is a store of nodes, with positions for pointers.
--   Links: model/TransactionLink.tsx.
--   Balances: model/balances.ts and `nanosAppendMap`. A `BalanceSweep` is a record that
--     `advance_to` takes and returns; the snapshot is a value of it.
--   Search, Search.Match: search/visitor.tsx; search/matchers.tsx and search/search.tsx.
--   Form: components/txform and what it uses. Draft has txsuggestions/candidate.ts and draft.ts,
--     Expense, Income and Transfer their defaults.tsx, Values the one above them, Validation the
--     schemas of types.ts, Sharing useSharingTypeActions.ts, Submit actions/txform/index.ts.
--   Stats: ExchangedTransactions.tsx and app/(authenticated)/stats/modelHelpers.tsx, outside
--     frontend/lib as the forms are.
--   Stats.Series: util/Timeseries.tsx, and the loops of components/charts/timeseries that fill the
--     series of income, expenses and cashflow; in Categories those by category, with
--     util/DefaultMap.tsx.
--   Suggestions: components/txform/NewTransactionSuggestions.tsx, and `sameEvent` of draft.ts.
--   Auth: auth/redirect.ts, and proxy.ts of frontend.
--   Util.Numbers: `parseAmountAsNanos` of util/util.ts, and util/searchParams.tsx. Prelude.Text has
--     the strings that it and the search use, as lists of characters.
--   Util.Sets, Util.Stats, Util.Spacing, Util.Collections: util/set.tsx, util/stats.tsx,
--     `evenlySpacedNumbers` of util/util.ts, and collections.ts.
--
-- Conventions. A function that throws returns a `Result`, and the constructors of `Error` stand
-- for the places that throw, without the text. A bigint is a signed integer of any size. A time is
-- a whole number of nanoseconds where the code has a number of milliseconds, and a rate is exact
-- where the code has a double. Ids are natural numbers. A `Map` is an association list in the order
-- of insertion, and `Array.sort` a stable sort.
--
-- Parameters stand for `closestTo` of date-fns, the clock (`now`), lower case and the days of
-- date-fns in a search (`Runtime`), the ANTLR parser of searches, and in a form `isValid` of date-fns
-- and the dates that a text names, `isWithinInterval` of date-fns, the starts of months, quarters and
-- years (`Calendar`) and those of them in an interval, and the host of a URL.
--
-- Fuel. `fill` has a round for each day that fits between two days of a series, and one more,
-- which is enough for its loop to end. The walks of a category tree take fuel and answer `none`
-- without enough of it; up the tree, the rank of the category is enough, and down it, one more than
-- the largest rank.
--
-- Not modelled: the generated encoders of gRPC, the ANTLR parser of searches, formatting for display
-- and floating point, the charts themselves, pages, hooks, sessions and the backend.
pub mod Prelude
pub mod Model
pub mod Money
pub mod Transaction
pub mod Market
pub mod Versions
pub mod Category
pub mod Links
pub mod Form
pub mod Util
pub mod Balances
pub mod Search
pub mod Stats
pub mod Suggestions
pub mod Auth
pub mod Client
