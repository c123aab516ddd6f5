-- ===== src/Settings.antt =====
-- internal/config/config.go, internal/api/handlers/config.go and the settings form of
-- internal/api/pages.go: the configuration, the settings saved in the database, and their patches.
pub mod Defs
pub mod Patch
pub mod Synced
pub mod Form
