-- ===== src/Grouping.antt =====
-- workers/loc.api/sync/helpers: the rows of a report by timeframe, and the merge of several of them.
pub mod Frames
pub mod Merge
mod Samples
