-- ===== src/Lib.antt =====
-- bfx-reports-framework is the reports service of Bitfinex. It copies the data of an account from
-- the exchange's API into a local database, which is the sync, and computes reports from the copy.
--
-- The parts and how they interact. `Sync` starts a sync: it adds a job to the queue, switches the
-- requests of the clients over to the API, runs the queue, and switches them back. The queue takes
-- its jobs one after another, gives each to the data inserter, and turns what that reports into the
-- overall progress. `Progress` keeps the progress in the database, estimates the time that is left,
-- and tells the clients and the parent process. The data inserter's middleware gives each ledger a
-- category by its description. From the copy the tax report gives each transaction a price in USD, by
-- the public trades of the API, and finds, for each sale, the purchases that it sells; most other
-- reports group their rows by timeframe.
-- Before any of this `DbMigration` brings the database to the version of the code, with `Messages` to
-- ask the parent process what to do on a failure. `DataChecker` looks for new data collection by
-- collection; from what the tables hold, `UserStep` chooses the range of time that is to be requested
-- next. The queries of the database get their conditions from `WhereQuery`.
--
--   Base         lists over the native numbers, Boolean tests, signed integers
--   Sync         workers/loc.api/sync/index.js: `start` is start, `sync` is _sync, `stop` is stop
--   SyncQueue    workers/loc.api/sync/sync.queue/index.js: Table is the job table with the queries of
--                the DAO that the queue makes, Add is `add`, Multipliers is `_getMultipliers` and its
--                helpers, Process is `process` with `_subProcess` and `_getNext`
--   Progress     workers/loc.api/sync/progress/index.js, one function for each method; ErrorText is
--                the test of its regular expression
--   Category     workers/loc.api/sync/data.inserter/api.middleware/helpers/
--                get-category-from-description.js: Schema is its list of rules, Patterns its testers
--   TaxReport    workers/loc.api/sync/transaction.tax.report/helpers: Trades is the record of a trade
--                with get-trx-fee-usd.js, get-trx-tax-type.js and set-delisted-ccy-to-map.js; Matching
--                is one sale against one purchase, Purchases the loop over the purchases, LookUp the one
--                over the sales and Realized the report's rows, all of look-up-trades.js;
--                PublicTrade is find-public-trade.js; Remap is remap-trades.js and
--                remap-movements.js; Conversion is get-trx-map-by-ccy.js, trx.price.calculator.js
--                and get-ccy-pair-for-conversion.js; Convert is #convertCurrencies and Stored
--                #updateExactUsdValueInColls of workers/loc.api/sync/transaction.tax.report/index.js
--   UserStep     workers/loc.api/sync/data.inserter/sync.user.step.manager: the step of
--                sync.user.step.data.js, and of index.js the choice of the next step. Stored is
--                updateOrInsertSyncInfoForCurrColl with the unique indexes of
--                workers/loc.api/sync/schema/models/sync-user-steps.js
--   DataChecker  workers/loc.api/sync/data.inserter/data.checker/index.js: Steps is one check of one
--                step, Symbols the pairs of the candles, Check the loops over the collections
--   DbMigration  workers/loc.api/sync/dao/db-migrations with sync/dao/db.backup.manager/index.js and
--                di/factories/migrations-factory.js: Launch is migration.js with the abstract
--                migration of SQLite, Backups the backup manager, Migrator the two db migrators
--   Messages     workers/loc.api/process.message.manager: the promises that wait for a state of the
--                parent process, and Handlers the handlers of the states
--   WhereQuery   workers/loc.api/sync/dao/helpers/get-where-query.js: Conditions is the filter with
--                _getFieldsNamesToDisableCaseSensitivity and serialize-val.js, Comparison one
--                comparison, and WhereQuery the loops over the keys
--   Grouping     workers/loc.api/sync/helpers: Frames is group-by-timeframe.js with
--                set-mts-to-starting-and-ending-frames.js, and Merge is _mergeData of
--                calc-grouped-data.js with get-back-iterable.js
--
-- How state is modelled. A class is a record of its fields, and a method that changes them a function
-- from the record to the record. A thrown error is a constructor of the result. In `Sync` a run is
-- the list of the calls that it makes; in `DbMigration`, `DataChecker` and `TaxReport.Convert` a
-- method is an action on the state that ends with a result or an error (Base.Actions). The trades,
-- which the loops change in place, stand in a list and are named by their index. What the database,
-- the sockets, the API, the clock, the interrupter and the data inserter answer is an argument. Other
-- starts may add jobs to the queue while it runs: what they add during a round stands in the table
-- before the next one searches for a job.
--
-- Bounds and fuel. `SyncQueue.Process.process` has fuel for 11 rounds, since the source leaves its
-- loop at a count above 10. The search in PublicTrade has one step of fuel for each trade and one
-- more, since each step makes its range smaller. The loop over the waiting promises in `Messages` has
-- the length of the queue, since each step takes an index further. Every other loop is recursion on a
-- list.
--
-- Numbers. Percents and times are natural numbers. Shares of the queue's progress are fractions, and
-- the amounts of the tax report integers in a smallest unit: sums, differences and comparisons are
-- exact, as bignumber.js has them, and products and quotients are parameters. The left time of the sync
-- is computed in double precision, for times below 2 ^ 53. Letters are those of ASCII where case does
-- not count.
--
-- Not modelled: the HTTP and WebSocket services, the authenticator, the DAO and SQLite with the
-- statements of its migrations, the writers of CSV and PDF files, the dependency injection, and the
-- reports that read tables and pass on what they find. moment, bignumber.js and the helpers of
-- bfx-report are packages: what the code takes from them is a parameter.
pub mod Base
pub mod Category
pub mod TaxReport
pub mod SyncQueue
pub mod Progress
pub mod Grouping
pub mod Sync
pub mod UserStep
pub mod DbMigration
pub mod DataChecker
pub mod Messages
pub mod WhereQuery
