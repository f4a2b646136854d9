-- ===== src/Scheduler/Tick.antt =====
-- src/services/SchedulerFSM.ts: `tick`, the wall-clock trigger.
use obsidian_archivist.Common.{ℕ, ◌-◌, true, ◌&&◌, none, some, leb, ltb, ◌==◌, not, if◌then◌else◌}
use obsidian_archivist.Scheduler.State.{
  ready, backup_running, error, PendingBackup, scheduled, catchup, Fsm, Env,
}
use obsidian_archivist.Scheduler.Planner.{
  preflight_lead_ms, is_at, dismiss, inc_interval_elapsed, compute_next_scheduled_full_at,
  is_scheduled_full_overdue, fire_preflight,
}
use obsidian_archivist.Scheduler.Timers.{is_state, transition}

-- The first part of `tick`: a slot that has passed becomes a catch-up.
unfoldable pub promote_overdue : Env → Fsm → Fsm
promote_overdue env s =
    if not s.catchup_pending && is_scheduled_full_overdue env s
    then dismiss env (record s { catchup_pending = true; preflight_fired_for = none })
    else s

-- Step 1 of `tick`.
unfoldable pub preflight_window : Env → ℕ → Fsm → Fsm
unfolding fire_preflight
preflight_window env t s =
    if leb (t - preflight_lead_ms) env.now && ltb env.now t && not (is_at s.preflight_fired_for t)
    then fire_preflight t s
    else s

-- Steps 2 to 4 of `tick`.
unfoldable pub start_due : Env → ℕ → Fsm → Fsm
unfolding transition
start_due env t s =
    if leb t env.now
    then transition backup_running
        (record s { pending_backup = some (PendingBackup.full scheduled) })
    else if s.catchup_pending
    then transition backup_running (record s { pending_backup = some (PendingBackup.full catchup) })
    else if env.queue_size == 0
    then s
    else if not (inc_interval_elapsed env)
    then s
    else transition backup_running (record s { pending_backup = some PendingBackup.inc })

unfoldable pub tick : Env → Fsm → Fsm
tick env s =
    if not (is_state s.state ready) && not (is_state s.state error)
    then s
    else if not env.is_designated
    then s
    else (let promoted = promote_overdue env s in
        let t = compute_next_scheduled_full_at env promoted in
        start_due env t (preflight_window env t promoted))
