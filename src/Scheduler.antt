-- ===== src/Scheduler.antt =====
-- src/services/SchedulerFSM.ts: the state machine that drives the cadence of backups.
pub mod State
pub mod Planner
pub mod Timers
pub mod Methods
pub mod Tick
pub mod Machine
pub mod Invariant
pub mod Starts
pub mod Locks
pub mod Slots
pub mod Notices
