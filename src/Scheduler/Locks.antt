-- ===== src/Scheduler/Locks.antt =====
-- What a lock and a running backup withstand, and the diagram of the states.
use obsidian_archivist.Scheduler.Timers.{is_state}
use obsidian_archivist.Scheduler.Methods.{pending_of, trigger_backup_now}
use obsidian_archivist.Common.{
  [], ◌∷◌, ◌≢◌, some, ◌||◌, ◌⊎◌, arith, not, ◌≡◌, true, all, false, Bool, List,
}
use obsidian_archivist.Scheduler.Machine.{
  Event, step, run, layout_ready, designated, lose_auth, unblock, backup_blocked, backup_success,
  backup_failure, clock_tick,
}
use obsidian_archivist.Scheduler.State.{
  Fsm, BackupKind, Env, FsmState-discrete, FsmState, loading, grace, quiet_wait, ready,
  backup_running, passive, error, started,
}

-- The edges of the diagram, by the state that is entered.
abbrev pub allowed : FsmState → FsmState → Bool
allowed from loading = false
allowed from grace = is_state from loading
allowed from quiet_wait = is_state from grace
allowed from ready =
    is_state from quiet_wait
    || is_state from passive
    || is_state from FsmState.auth_lost
    || is_state from backup_running
    || is_state from FsmState.blocked
allowed from backup_running =
    not (is_state from FsmState.auth_lost || is_state from FsmState.blocked)
allowed from passive = not (is_state from backup_running)
allowed from error = is_state from backup_running
allowed from FsmState.auth_lost = true
allowed from FsmState.blocked = true

-- Every call keeps the state or follows an edge of the diagram: `loading` is never entered again,
-- `grace`, `quiet_wait` and `error` have one way in, and no backup starts while the authorisation
-- is lost or the machine is blocked.
pub step-allowed :
    (env : Env) (e : Event) (s : Fsm)
    → ((step env e s).state ≡ s.state) ⊎ (allowed s.state (step env e s).state ≡ true)
unfolding step FsmState-discrete
step-allowed env layout_ready s = ground arith
step-allowed env _ s = ground arith

-- The calls that may end a lock.
abbrev pub unlocks : Event → Bool
unlocks unblock = true
unlocks lose_auth = true
unlocks (designated false) = true
unlocks _ = false

step_blocked :
    (env : Env) (e : Event) (s : Fsm)
    → unlocks e ≡ false
    → s.state ≡ FsmState.blocked
    → (step env e s).state ≡ FsmState.blocked
unfolding step
step_blocked env clock_tick s u b = ground arith
step_blocked env unblock s u b = ground arith
step_blocked env lose_auth s u b = ground arith
step_blocked env (designated true) s u b = ground arith
step_blocked env (designated false) s u b = ground arith
step_blocked env _ s u b = ground arith

abbrev pub no_unlock : List (Env × Event) → Bool
no_unlock = all (λ c. not (unlocks c.1))

-- A blocked machine stays blocked, through any calls but the release of the lock, a loss of the
-- authorisation and the end of the device's designation: no tick, vault event, report of a backup,
-- manual trigger or designation of the device, which does not release the lock, starts anything.
pub run_blocked :
    (es : List (Env × Event)) (s : Fsm)
    → no_unlock es ≡ true
    → s.state ≡ FsmState.blocked
    → (run es s).state ≡ FsmState.blocked
unfolding run
run_blocked [] s n b = b
run_blocked ((env, e) ∷ es) s n b =
    run_blocked es (step env e s) (ground arith) (step_blocked env e s (ground arith) b)

-- The calls that may end a running backup.
abbrev pub ends_backup : Event → Bool
ends_backup backup_success = true
ends_backup backup_failure = true
ends_backup backup_blocked = true
ends_backup lose_auth = true
ends_backup _ = false

-- A running backup is not interrupted: only its reported outcome and a loss of the authorisation
-- leave `backup_running`, and no other call changes which backup is pending.
pub step_running :
    (env : Env) (e : Event) (s : Fsm)
    → ends_backup e ≡ false
    → s.state ≡ backup_running
    → ((step env e s).state ≡ backup_running) × ((step env e s).pending_backup ≡ s.pending_backup)
unfolding step
step_running env clock_tick s u b = ground arith
step_running env _ s u b = ground arith

-- The manual trigger tells its caller what happened: it answers `started` exactly when it has
-- started a backup of the kind that was asked for, and otherwise changes nothing.
pub trigger_backup_now_lem :
    (env : Env) (k : BackupKind) (s : Fsm)
    → let (t, r) = trigger_backup_now env k s in
      ((r ≡ started)
        × (t.state ≡ backup_running)
        × (t.pending_backup ≡ some (pending_of k))
        × (s.state ≢ backup_running))
      ⊎ ((r ≢ started) × (t ≡ s))
unfolding trigger_backup_now
trigger_backup_now_lem env k s = ground arith
