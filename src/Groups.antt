-- ===== src/Groups.antt =====
-- internal/api/handlers/groups.go.
pub mod Delete
pub mod Safety
pub mod Counts
pub mod Ignore
pub mod Listed
pub mod Query
pub mod Shown
