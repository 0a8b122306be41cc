-- ===== src/Storage.antt =====
-- Package `storage` (internal/storage): the repositories over the PostgreSQL tables.
pub mod Models
pub mod Database
pub mod Productions
pub mod Actors
pub mod ItemTypes
pub mod Items
pub mod Photos
pub mod Keeps
pub mod Frames
pub mod Codes
pub mod Lookups
pub mod Steps
pub mod BulkImport
pub mod ItemTypeSummary
pub mod Dashboard
pub mod Reports
pub mod Search
pub mod Migrations
mod Tests
mod ChangeTests
mod ImportTests
