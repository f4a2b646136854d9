-- ===== src/Backup.antt =====
-- src/services/BackupService.ts: the window of queued events, the local index and the chain check.
pub mod Buckets
pub mod LocalIndex
pub mod Agreement
pub mod Windows
pub mod ChainWalk
pub mod Uploads
pub mod Rebuild
pub mod Rebuilt
pub mod Commit
pub mod Batching
pub mod UploadLaws
pub mod Consistent
pub mod Stages
pub mod Protocol
pub mod Writes
pub mod Sync
pub mod Collision
pub mod Building
pub mod Session
pub mod Runs
pub mod ReadLaws
pub mod RunKeeps
pub mod FullSteps
pub mod FullRun
pub mod Planning
pub mod IncRuns
pub mod IncFiles
pub mod IncSteps
pub mod IncRun
pub mod Blocked
pub mod Reconciled
pub mod Restorable
