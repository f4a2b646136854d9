-- ===== src/Startup.antt =====
-- src/services/StartupRecovery.ts: what the plugin repairs on startup.
pub mod Report
pub mod Manifests
pub mod Recovery
pub mod Laws
pub mod Repaired
pub mod Converges
pub mod Again
