-- ===== src/Devices.antt =====
-- src/services/DeviceCoordinator.ts and src/services/VaultIdentity.ts: which device commits to a
-- folder, and which vault the folder belongs to.
pub mod Uuid
pub mod Coordinator
pub mod Conflicts
pub mod Identity
pub mod Claims
