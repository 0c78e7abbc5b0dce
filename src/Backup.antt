-- ===== src/Backup.antt =====
-- The backup of the SDK's state: `libs/sdk-core/src/backup.rs`, the database operations of
-- `libs/sdk-core/src/persist/sync.rs`, and the transport of `libs/sdk-core/src/ldk/backup_transport.rs`.
pub mod Rows
pub mod Tables
pub mod Database
pub mod Transport
pub mod Worker
pub mod Merge
pub mod Watcher
mod Tests
