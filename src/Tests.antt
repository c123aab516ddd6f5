-- ===== src/Tests.antt =====
-- Runs of the model on small inputs, and the theorems at those inputs.
pub mod Data
pub mod Pipeline
pub mod Stages
pub mod Tables
pub mod Writer
pub mod Trash
pub mod Groups
pub mod Manager
pub mod Ignore
pub mod Walker
pub mod Codec
pub mod Pages
pub mod Whole
pub mod Settings
pub mod Queue
pub mod Scans
pub mod Listing
pub mod Status
pub mod Format
pub mod Startup
pub mod Shown
pub mod Media
pub mod Resent
