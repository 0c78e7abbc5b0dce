-- ===== src/Backup/Merge.antt =====
-- What `import_remote_changes` of `libs/sdk-core/src/persist/sync.rs` does to each table, its triggers
-- included.
pub mod Steps
pub mod Imported
pub mod Merged
pub mod Converge
pub mod Settled
pub mod Requests
