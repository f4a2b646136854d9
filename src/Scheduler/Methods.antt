-- ===== src/Scheduler/Methods.antt =====
-- src/services/SchedulerFSM.ts: the public methods that move the machine, but for `tick`.
use obsidian_archivist.Common.{Bool, true, false, ◌||◌, Option, none, some, not, if◌then◌else◌}
use obsidian_archivist.Scheduler.State.{
  FsmState, loading, quiet_wait, ready, backup_running, passive, error, PendingBackup, BackupKind,
  TriggerResult, started, already_running, not_designated, scheduled, catchup, Fsm, Env,
}
use obsidian_archivist.Scheduler.Planner.{dismiss}
use obsidian_archivist.Scheduler.Timers.{
  is_state, transition, clear_timers, reset_quiet_timer, enter_grace,
}

unfoldable pub on_layout_ready : Env → Fsm → Fsm
unfolding transition enter_grace
on_layout_ready env s =
    if not (is_state s.state loading)
    then s
    else if not env.is_designated
    then transition passive s
    else enter_grace env s

unfoldable pub on_vault_event : Env → Fsm → Fsm
unfolding reset_quiet_timer
on_vault_event env s = if is_state s.state quiet_wait then reset_quiet_timer env s else s

unfoldable pub set_designated : Bool → Fsm → Fsm
unfolding clear_timers transition
set_designated designated s =
    if is_state s.state backup_running
    then s
    else if not designated
    then (let t = clear_timers s in
        if not (is_state t.state passive) then transition passive t else t)
    else if is_state s.state passive
    then transition ready s
    else s

unfoldable pub set_auth_lost : Fsm → Fsm
unfolding clear_timers transition
set_auth_lost s =
    let t = clear_timers s in
    if not (is_state t.state FsmState.auth_lost) then transition FsmState.auth_lost t else t

unfoldable pub set_auth_restored : Fsm → Fsm
unfolding transition
set_auth_restored s = if is_state s.state FsmState.auth_lost then transition ready s else s

unfoldable pub on_backup_started : Fsm → Fsm
unfolding transition
on_backup_started s =
    if is_state s.state ready || is_state s.state error then transition backup_running s else s

abbrev pub pending_of : BackupKind → PendingBackup
pending_of BackupKind.full = PendingBackup.full scheduled
pending_of BackupKind.inc = PendingBackup.inc

unfoldable pub trigger_backup_now : Env → BackupKind → Fsm → Fsm × TriggerResult
unfolding clear_timers transition
trigger_backup_now env kind s =
    if not env.is_designated
    then (s, not_designated)
    else if is_state s.state FsmState.auth_lost
    then (s, TriggerResult.auth_lost)
    else if is_state s.state FsmState.blocked
    then (s, TriggerResult.blocked)
    else if is_state s.state backup_running
    then (s, already_running)
    else (
      transition backup_running
          (record (clear_timers s) { pending_backup = some (pending_of kind) }),
      started,
    )

unfoldable pub set_blocked : Fsm → Fsm
unfolding clear_timers transition
set_blocked s =
    if is_state s.state backup_running
    then s
    else (let t = clear_timers s in
        if not (is_state t.state FsmState.blocked) then transition FsmState.blocked t else t)

unfoldable pub on_backup_blocked : Fsm → Fsm
unfolding transition
on_backup_blocked s =
    let t = record s { pending_backup = none } in
    if is_state t.state backup_running then transition FsmState.blocked t else t

unfoldable pub clear_block : Fsm → Fsm
unfolding transition
clear_block s = if not (is_state s.state FsmState.blocked) then s else transition ready s

abbrev pub is_full : Option PendingBackup → Bool
is_full none = false
is_full (some PendingBackup.inc) = false
is_full (some (PendingBackup.full r)) = true

abbrev pub is_catchup : Option PendingBackup → Bool
is_catchup none = false
is_catchup (some PendingBackup.inc) = false
is_catchup (some (PendingBackup.full scheduled)) = false
is_catchup (some (PendingBackup.full catchup)) = true

clear_planner : Env → Fsm → Fsm
clear_planner env s =
    if is_full s.pending_backup
    then dismiss env (record s {
      full_override = none;
      skipped_cycle = none;
      preflight_fired_for = none;
      catchup_pending = if is_catchup s.pending_backup then false else s.catchup_pending;
    })
    else s

unfoldable pub on_backup_success : Env → Fsm → Fsm
unfolding clear_planner transition
on_backup_success env s =
    let t = record (clear_planner env s) { pending_backup = none } in
    if is_state t.state backup_running then transition ready t else t

unfoldable pub on_backup_failure : Fsm → Fsm
unfolding transition
on_backup_failure s =
    let t = record s { pending_backup = none } in
    if is_state t.state backup_running then transition error t else t

unfoldable pub onunload : Fsm → Fsm
unfolding clear_timers
onunload s = clear_timers s
