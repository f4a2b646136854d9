-- ===== src/Retention.antt =====
-- src/services/retention and RetentionService.ts: which snapshots stay.
pub mod Dates
pub mod Tiers
pub mod Floor
pub mod Buckets
pub mod Ancestors
pub mod Closure
pub mod Chains
pub mod Service
pub mod Pass
pub mod Pruning
pub mod Passes
