-- ===== src/Restore.antt =====
-- src/services/RestoreService.ts: reconstruction of the vault from a chain of manifests.
pub mod Replay
pub mod Laws
pub mod Chain
pub mod Walk
pub mod Fetch
pub mod Complete
pub mod Cache
pub mod Cached
