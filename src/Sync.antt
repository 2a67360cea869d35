-- ===== src/Sync.antt =====
-- extension/src/core/sync
pub mod Tree
pub mod Events
pub mod Worker
pub mod Coordinator
pub mod Verify
pub mod Applied
pub mod Applier
