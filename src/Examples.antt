-- ===== src/Examples.antt =====
-- The theorems at concrete inputs, and tests of the definitions.
mod Scheduling
mod Restoring
mod Collecting
mod Retaining
mod Starting
mod Queueing
mod Backups
mod Commits
mod Naming
mod Rebuilding
mod Running
