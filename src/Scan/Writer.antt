-- ===== src/Scan/Writer.antt =====
-- RunDBWriter, persistGroups, writeGroupBatch, writeGroupInTx and updateCache
-- (internal/scan/writer.go).
pub mod Defs
pub mod Collect
pub mod Group
pub mod Rows
pub mod Insert
pub mod View
pub mod Write
pub mod All
pub mod Batches
pub mod Iteration
pub mod Recorded
