-- ===== src/Scan/Walker.antt =====
-- The directory walker (internal/scan/walker.go): its queue, its workers, the files it should find, and
-- what it guarantees.
pub mod Queue
pub mod Worker
pub mod Files
pub mod Turns
pub mod Pending
pub mod Leaving
pub mod Complete
pub mod Ends
