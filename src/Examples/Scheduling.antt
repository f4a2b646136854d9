-- ===== src/Examples/Scheduling.antt =====
-- The scheduler of src/services/SchedulerFSM.ts at concrete inputs.
use obsidian_archivist.Scheduler.Timers.{init}
use obsidian_archivist.Scheduler.Locks.{run_blocked}
use obsidian_archivist.Scheduler.Slots.{postpone_defeated}
use obsidian_archivist.Scheduler.Planner.{
  inc_interval_elapsed, is_scheduled_full_overdue, on_postpone_1h, compute_next_scheduled_full_at,
}
use obsidian_archivist.Scheduler.Invariant.{init-TimersMatch, run-TimersMatch, TimersMatch}
use obsidian_archivist.Scheduler.Tick.{tick}
use obsidian_archivist.Scheduler.Methods.{is_full}
use obsidian_archivist.Scheduler.Starts.{first_full_runs, step-MayStart, tick-due, MayStart, due}
use obsidian_archivist.Common.{
  inl, refl, ◌*◌, arith, ◌+◌, ◌≡◌, ◌/◌, ltb, ℕ, true, if◌then◌else◌, none, some, [], ◌∷◌,
}
use obsidian_archivist.Scheduler.State.{
  catchup, ready, backup_running, FsmState, PendingBackup, BackupKind, Fsm, Env,
}
use obsidian_archivist.Scheduler.Machine.{
  run, step, layout_ready, grace_timeout, quiet_timeout, clock_tick, recover, trigger_now,
}

abbrev week : ℕ
week = 604800000

-- A designated device with a full at the epoch, a day and a bit before the next weekly slot.
abbrev midweek : Env
midweek = record {
  now = 518000000;
  is_designated = true;
  queue_size = 0;
  last_full_commit_at = some 0;
  earliest_pending_observed_at = none;
  startup_grace_minutes = 1;
  quiet_after_event_minutes = 2;
  inc_interval_minutes = 60;
  can_dismiss = true;
  next_handle = 7;
  next_full_after = λ t. (t / week + 1) * week;
}

abbrev after_slot : Env
after_slot = record midweek {
  now = 604800500;
  next_full_after = λ t. if ltb 604800000 t then 1209600000 else 604800000;
}

abbrev fresh : Env
fresh = record midweek {
  last_full_commit_at = none;
  queue_size = 1;
  earliest_pending_observed_at = some 0;
}

abbrev at_state : FsmState → Fsm
at_state st = record init { state = st }

run-TimersMatch_example :
    TimersMatch (run ((midweek, layout_ready) ∷ (midweek, grace_timeout) ∷ []) init)
run-TimersMatch_example =
    run-TimersMatch ((midweek, layout_ready) ∷ (midweek, grace_timeout) ∷ []) init
      (ground arith, (ground arith, tt)) init-TimersMatch

step-MayStart_example : MayStart midweek (trigger_now BackupKind.full) ready
unfolding step
step-MayStart_example =
    step-MayStart midweek (trigger_now BackupKind.full) (at_state ready) (ground arith) refl

tick-due_example :
    ((p : PendingBackup)
      → due fresh (at_state ready) ≡ some p
      → ((tick fresh (at_state ready)).state ≡ backup_running)
        × ((tick fresh (at_state ready)).pending_backup ≡ some p))
    × (due fresh (at_state ready) ≡ none
        → ((tick fresh (at_state ready)).state ≡ ready)
          × ((tick fresh (at_state ready)).pending_backup ≡ none))
tick-due_example = tick-due fresh (at_state ready) refl (inl refl)

due_test : due fresh (at_state ready) ≡ some PendingBackup.inc
unfolding due compute_next_scheduled_full_at is_scheduled_full_overdue inc_interval_elapsed
due_test = refl

first_full_runs_example :
    let s =
      run
        ((fresh, recover)
          ∷ (fresh, layout_ready)
          ∷ (fresh, grace_timeout)
          ∷ (fresh, quiet_timeout)
          ∷ (fresh, clock_tick)
          ∷ [])
        init in
    (s.state ≡ backup_running) × (is_full s.pending_backup ≡ true)
first_full_runs_example = first_full_runs fresh fresh fresh fresh fresh refl refl refl

run_blocked_example :
    (run
      ((midweek, trigger_now BackupKind.full) ∷ (fresh, clock_tick) ∷ [])
      (at_state FsmState.blocked)).state
    ≡ FsmState.blocked
run_blocked_example =
    run_blocked ((midweek, trigger_now BackupKind.full) ∷ (fresh, clock_tick) ∷ [])
      (at_state FsmState.blocked) refl refl

postpone_defeated_example :
    let t = tick after_slot (on_postpone_1h 604800000 (at_state ready)) in
    (t.state ≡ backup_running) × (t.pending_backup ≡ some (PendingBackup.full catchup))
postpone_defeated_example =
    postpone_defeated after_slot (at_state ready) 604800000 0 refl refl refl (ground arith) refl
      refl (ground arith) (ground arith) (ground arith)

abbrev catching_up : Fsm
catching_up = record (at_state backup_running) {
  pending_backup = some (PendingBackup.full catchup);
  catchup_pending = true;
}
