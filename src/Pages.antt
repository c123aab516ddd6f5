-- ===== src/Pages.antt =====
-- The web pages (internal/api/pages.go): what they show, and their forms and buttons.
pub mod Delete
pub mod Checked
pub mod Agreement
pub mod Groups
pub mod Paging
pub mod Ignore
pub mod Ignored
pub mod Format
pub mod Trash
pub mod Detail
pub mod Dashboard
pub mod Reclaimed
pub mod Fragment
pub mod Resent
