-- ===== src/SyncQueue.antt =====
-- workers/loc.api/sync/sync.queue/index.js.
pub mod Table
pub mod Add
pub mod Multipliers
pub mod Process
mod Samples
