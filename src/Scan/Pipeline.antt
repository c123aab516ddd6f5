-- ===== src/Scan/Pipeline.antt =====
-- runPipeline and mergeHashedFiles (internal/scan/scan.go).
pub mod Wiring
pub mod Stages
pub mod Duplicates
pub mod Complete
pub mod Once
