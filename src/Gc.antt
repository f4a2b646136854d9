-- ===== src/Gc.antt =====
-- src/services/GCService.ts: the sweep of content blobs that no snapshot references.
pub mod Sweep
pub mod Safety
