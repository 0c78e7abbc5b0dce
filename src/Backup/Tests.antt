-- ===== src/Backup/Tests.antt =====
-- The backup of `libs/sdk-core/src/backup.rs` at concrete inputs.
mod MergeTests
mod WorkerTests
