-- ===== src/Scheduler/Slots.antt =====
-- What becomes of a slot of the schedule: shown, skipped, postponed, missed.
use obsidian_archivist.Scheduler.Methods.{is_full, on_backup_success}
use obsidian_archivist.Scheduler.Planner.{
  postpone_ms, preflight_lead_ms, on_skip, on_postpone_1h, is_scheduled_full_overdue,
  compute_next_scheduled_full_at,
}
use obsidian_archivist.Scheduler.Tick.{start_due, preflight_window, promote_overdue, tick}
use obsidian_archivist.Scheduler.Starts.{due}
use obsidian_archivist.Common.{◌≤◌, ◌≢◌, ◌<◌, none, false, true, some, arith, ◌+◌, ◌≡◌, ℕ}
use obsidian_archivist.Scheduler.State.{PendingBackup, Fsm, Env, ready, backup_running, catchup}

-- Skipping a slot holds at its instant: once the user has skipped the slot that the schedule
-- gives, a tick at an instant of that slot starts no full, if the next slot lies ahead, the slot
-- follows the last full and no catch-up is pending.
pub skip_holds :
    (env : Env) (s : Fsm) (slot last : ℕ)
    → s.catchup_pending ≡ false
    → env.next_full_after env.now ≡ slot
    → env.last_full_commit_at ≡ some last
    → env.next_full_after last ≡ slot
    → env.now < env.next_full_after (slot + 1)
    → is_full (due env (on_skip slot s)) ≡ false
unfolding due compute_next_scheduled_full_at is_scheduled_full_overdue on_skip
skip_holds env s slot last c n l e f = ground arith

-- Postponing a slot by an hour does not hold: where the machine is ready and the device designated,
-- nothing is postponed yet, the slot is not skipped and follows the last full by more than the lead,
-- a tick in the hour after the slot starts a catch-up full at once.
pub postpone_defeated :
    (env : Env) (s : Fsm) (slot last : ℕ)
    → env.is_designated ≡ true
    → s.state ≡ ready
    → s.full_override ≡ none
    → s.skipped_cycle ≢ some slot
    → env.last_full_commit_at ≡ some last
    → env.next_full_after last ≡ slot
    → last + preflight_lead_ms < slot
    → slot ≤ env.now
    → env.now < slot + postpone_ms
    → let t = tick env (on_postpone_1h slot s) in
      (t.state ≡ backup_running) × (t.pending_backup ≡ some (PendingBackup.full catchup))
unfolding tick promote_overdue preflight_window start_due compute_next_scheduled_full_at
    is_scheduled_full_overdue on_postpone_1h
postpone_defeated env s slot last d r o k l e far past within = ground arith

-- However many slots were missed, one catch-up full makes up for them: when it succeeds the
-- machine is ready with no catch-up pending and no skipped, postponed or announced slot left, and
-- no full is due again before the next slot after it.
pub catchup_once :
    (env later : Env) (s : Fsm) (last : ℕ)
    → s.state ≡ backup_running
    → s.pending_backup ≡ some (PendingBackup.full catchup)
    → later.last_full_commit_at ≡ some last
    → later.now < later.next_full_after last
    → later.now < later.next_full_after later.now
    → let t = on_backup_success env s in
      (t.state ≡ ready)
      × (t.catchup_pending ≡ false)
      × (t.pending_backup ≡ none)
      × (is_full (due later t) ≡ false)
unfolding due compute_next_scheduled_full_at is_scheduled_full_overdue on_backup_success
catchup_once env later s last r p l h k = ground arith
