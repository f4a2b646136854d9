-- ===== src/Store.antt =====
-- src/services/SnapshotIndexStore.ts: the snapshot index on the remote.
pub mod Index
pub mod Laws
pub mod Queue
pub mod Heal
pub mod Kept
pub mod Repair
pub mod Repaired
