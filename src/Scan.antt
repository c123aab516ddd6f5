-- ===== src/Scan.antt =====
-- internal/scan: the pipeline, one module for each stage; the record of a scan; and the Manager.
pub mod Types
pub mod Config
pub mod Goroutine
pub mod Pairing
pub mod Walker
pub mod Accumulator
pub mod Grouper
pub mod Hasher
pub mod Cache
pub mod PriorityQueue
pub mod Writer
pub mod Pipeline
pub mod Whole
pub mod Recorded
pub mod Records
pub mod Progress
pub mod Manager
pub mod Handlers
pub mod Answers
pub mod Metrics
