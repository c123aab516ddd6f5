-- ===== src/Trash.antt =====
-- internal/trash/trash.go: moving files to the trash, back, and purging them.
pub mod Move
pub mod Manager
pub mod Safety
pub mod Purge
pub mod Outcomes
pub mod Handlers
pub mod Answers
