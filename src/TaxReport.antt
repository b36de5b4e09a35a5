-- ===== src/TaxReport.antt =====
-- workers/loc.api/sync/transaction.tax.report/helpers.
pub mod PublicTrade
pub mod Trades
pub mod Matching
pub mod Purchases
pub mod Realized
pub mod LookUp
pub mod Remap
pub mod Conversion
pub mod Stored
pub mod Convert
mod Samples
