-- ===== src/Maintenance.antt =====
-- src/services/MaintenanceScheduler.ts: the retention job after a backup.
pub mod Job
pub mod Lost
