-- ===== src/Scheduler/State.antt =====
-- src/services/SchedulerFSM.ts: the states, the fields of the class, what it reads of the rest of
-- the plugin, and the calls that it makes to the outside.
use obsidian_archivist.Common.{ℕ, Bool, Option, List}

pub data FsmState : Type 0 where
  loading grace quiet_wait ready backup_running passive error auth_lost blocked : FsmState

unfoldable pub FsmState-discrete : Discrete FsmState
FsmState-discrete = hlevel

pub data FullReason : Type 0 where
  scheduled catchup : FullReason

pub data PendingBackup : Type 0 where
  inc : PendingBackup
  full : FullReason → PendingBackup

pub data BackupKind : Type 0 where
  inc full : BackupKind

pub data TriggerResult : Type 0 where
  started already_running not_designated auth_lost blocked : TriggerResult

-- The calls of the class to its subscribers, the timers and the host of the preflight notice.
pub data Effect : Type 0 where
  notify : ℕ → FsmState → FsmState → Effect
  set_timeout : ℕ → Effect
  clear_timeout : ℕ → Effect
  show_preflight : ℕ → Effect
  dismiss_preflight : Effect

-- Instants are milliseconds since the epoch. A timer handle is a number, a subscriber is known by
-- a number.
pub record Fsm : Type 0 where
  pub state : FsmState
  pub grace_timer : Option ℕ
  pub grace_timer_end_at : Option ℕ
  pub quiet_timer : Option ℕ
  pub quiet_timer_end_at : Option ℕ
  pub subscribers : List ℕ
  pub full_override : Option ℕ
  pub skipped_cycle : Option ℕ
  pub preflight_fired_for : Option ℕ
  pub catchup_pending : Bool
  pub pending_backup : Option PendingBackup
  pub effects : List Effect

-- What a call reads: the clock, the injected getters, the schedule, the handle that the next
-- `setTimeout` returns, and `nextFullAt` at the settings' schedule and the last full.
pub record Env : Type 0 where
  pub now : ℕ
  pub is_designated : Bool
  pub queue_size : ℕ
  pub last_full_commit_at : Option ℕ
  pub earliest_pending_observed_at : Option ℕ
  pub startup_grace_minutes : ℕ
  pub quiet_after_event_minutes : ℕ
  pub inc_interval_minutes : ℕ
  pub can_dismiss : Bool
  pub next_handle : ℕ
  pub next_full_after : ℕ → ℕ
