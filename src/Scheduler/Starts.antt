-- ===== src/Scheduler/Starts.antt =====
-- When a backup starts: by which calls, in which states, and of which kind.
use obsidian_archivist.Scheduler.Methods.{is_full}
use obsidian_archivist.Scheduler.Timers.{init}
use obsidian_archivist.Scheduler.Planner.{
  inc_interval_elapsed, is_scheduled_full_overdue, compute_next_scheduled_full_at,
}
use obsidian_archivist.Scheduler.Tick.{promote_overdue, start_due, preflight_window, tick}
use obsidian_archivist.Common.{
  ℕ, [], ◌∷◌, ◌&&◌, ltb, ◌||◌, some, leb, [], ◌⊎◌, ◌∷◌, if◌then◌else◌, arith, true, ◌≢◌, none,
  Option, ◌≡◌,
}
use obsidian_archivist.Scheduler.Machine.{
  Event, step, run, layout_ready, grace_timeout, quiet_timeout, backup_started, trigger_now,
  clock_tick, recover,
}
use obsidian_archivist.Scheduler.State.{
  PendingBackup, FsmState, Fsm, Env, ready, backup_running, error, scheduled, catchup,
}

-- What a call needs to start a backup.
abbrev pub MayStart : Env → Event → FsmState → Type 0
MayStart env clock_tick st = (env.is_designated ≡ true) × ((st ≡ ready) ⊎ (st ≡ error))
MayStart env (trigger_now k) st =
    (env.is_designated ≡ true) × (st ≢ FsmState.auth_lost) × (st ≢ FsmState.blocked)
MayStart env backup_started st = (st ≡ ready) ⊎ (st ≡ error)
MayStart env _ st = ⊥

-- A call that takes the machine into `backup_running` from another state is one of three: a clock
-- tick on the designated device in `ready` or `error`; a manual trigger on the designated device
-- while the authorisation stands and nothing blocks; or a reported start in `ready` or `error`.
pub step-MayStart :
    (env : Env) (e : Event) (s : Fsm)
    → s.state ≢ backup_running
    → (step env e s).state ≡ backup_running
    → MayStart env e s.state
unfolding step
step-MayStart env clock_tick s h r = ground arith
step-MayStart env (trigger_now k) s h r = ground arith
step-MayStart env backup_started s h r = ground arith
step-MayStart env _ s h r = ground arith

-- What is due at an instant: a scheduled full before a missed one, and that before an incremental.
unfoldable pub due : Env → Fsm → Option PendingBackup
due env s =
    if leb (compute_next_scheduled_full_at env s) env.now
    then some (PendingBackup.full scheduled)
    else if s.catchup_pending || is_scheduled_full_overdue env s
    then some (PendingBackup.full catchup)
    else if ltb 0 env.queue_size && inc_interval_elapsed env
    then some PendingBackup.inc
    else none

promote_overdue_lem :
    (env : Env) (s : Fsm)
    → let t = promote_overdue env s in
      (t.state ≡ s.state)
      × (t.full_override ≡ s.full_override)
      × (t.skipped_cycle ≡ s.skipped_cycle)
      × (t.pending_backup ≡ s.pending_backup)
      × (t.catchup_pending ≡ (s.catchup_pending || is_scheduled_full_overdue env s))
unfolding promote_overdue
promote_overdue_lem env s = ground arith

compute-promote :
    (env : Env) (s : Fsm)
    → compute_next_scheduled_full_at env (promote_overdue env s)
      ≡ compute_next_scheduled_full_at env s
unfolding compute_next_scheduled_full_at
compute-promote env s = ground (arith, promote_overdue_lem env s)

preflight_window_lem :
    (env : Env) (t : ℕ) (s : Fsm)
    → let u = preflight_window env t s in
      (u.state ≡ s.state)
      × (u.pending_backup ≡ s.pending_backup)
      × (u.catchup_pending ≡ s.catchup_pending)
unfolding preflight_window
preflight_window_lem env t s = ground arith

-- What steps 2 to 4 of a tick start.
due_at : Env → ℕ → Fsm → Option PendingBackup
due_at env t s =
    if leb t env.now
    then some (PendingBackup.full scheduled)
    else if s.catchup_pending
    then some (PendingBackup.full catchup)
    else if ltb 0 env.queue_size && inc_interval_elapsed env
    then some PendingBackup.inc
    else none

start_due_lem :
    (env : Env) (t : ℕ) (s : Fsm)
    → ((p : PendingBackup)
        → due_at env t s ≡ some p
        → ((start_due env t s).state ≡ backup_running)
          × ((start_due env t s).pending_backup ≡ some p))
      × (due_at env t s ≡ none → start_due env t s ≡ s)
unfolding due_at start_due
start_due_lem env t s = ((λ p e. ground arith), (λ e. ground arith))

due_at-eq-due :
    (env : Env) (s : Fsm)
    → let t = compute_next_scheduled_full_at env (promote_overdue env s) in
      due_at env t (preflight_window env t (promote_overdue env s)) ≡ due env s
unfolding due_at due
due_at-eq-due env s =
    let p = promote_overdue env s in
    let t = compute_next_scheduled_full_at env p in
    ground (arith, promote_overdue_lem env s, compute-promote env s, preflight_window_lem env t p)

-- A tick on the designated device in `ready` or `error` starts exactly what is due: it enters
-- `backup_running` with that backup pending, and with nothing due it keeps the state and the
-- pending backup.
pub tick-due :
    (env : Env) (s : Fsm)
    → env.is_designated ≡ true
    → (s.state ≡ ready) ⊎ (s.state ≡ error)
    → ((p : PendingBackup)
        → due env s ≡ some p
        → ((tick env s).state ≡ backup_running) × ((tick env s).pending_backup ≡ some p))
      × (due env s ≡ none
          → ((tick env s).state ≡ s.state) × ((tick env s).pending_backup ≡ s.pending_backup))
unfolding tick
tick-due env s d r =
    let p = promote_overdue env s in
    let t = compute_next_scheduled_full_at env p in
    let u = preflight_window env t p in
    let same = due_at-eq-due env s in
    let fields = promote_overdue_lem env s in
    let kept = preflight_window_lem env t p in
    (
      (λ q e. ground (arith, (start_due_lem env t u).0 q, same)),
      (λ e. ground (arith, (start_due_lem env t u).1, same)),
    )

-- On a fresh install on the designated device the first backup runs after the grace and the quiet
-- period: whatever the calls read besides, the fifth call has started a full.
pub first_full_runs :
    (a b c d e : Env)
    → a.last_full_commit_at ≡ none
    → b.is_designated ≡ true
    → e.is_designated ≡ true
    → let s =
        run
          ((a, recover)
            ∷ (b, layout_ready)
            ∷ (c, grace_timeout)
            ∷ (d, quiet_timeout)
            ∷ (e, clock_tick)
            ∷ [])
          init in
      (s.state ≡ backup_running) × (is_full s.pending_backup ≡ true)
unfolding run step
first_full_runs a b c d e fresh here still = ground arith
