-- ===== src/Events.antt =====
-- src/infra/EventQueue.ts: the queue of vault events between two backups.
pub mod Queue
pub mod Laws
pub mod Dedup
