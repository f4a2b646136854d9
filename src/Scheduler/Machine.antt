-- ===== src/Scheduler/Machine.antt =====
-- The calls of src/services/SchedulerFSM.ts by the plugin (src/main.ts), its timers and the
-- buttons of the notice, as one step function, and a run of many.
use obsidian_archivist.Common.{ℕ, Bool, List, [], ◌∷◌}
use obsidian_archivist.Scheduler.State.{BackupKind, Fsm, Env}
use obsidian_archivist.Scheduler.Planner.{recover_on_startup, on_start_now, on_postpone_1h, on_skip}
use obsidian_archivist.Scheduler.Timers.{on_state_change, unsubscribe, grace_fired, quiet_fired}
use obsidian_archivist.Scheduler.Methods.{
  on_layout_ready, on_vault_event, set_designated, set_auth_lost, set_auth_restored,
  on_backup_started, trigger_backup_now, set_blocked, on_backup_blocked, clear_block,
  on_backup_success, on_backup_failure, onunload,
}
use obsidian_archivist.Scheduler.Tick.{start_due, preflight_window, promote_overdue, tick}

-- Every way in which the rest of the plugin, a timer or a button of the notice calls the machine.
pub data Event : Type 0 where
  layout_ready vault_event grace_timeout quiet_timeout : Event
  designated : Bool → Event
  lose_auth restore_auth backup_started : Event
  trigger_now : BackupKind → Event
  block unblock backup_blocked backup_success backup_failure clock_tick recover unload : Event
  start_now : Event
  subscribed unsubscribed : ℕ → Event
  postpone : ℕ → Event
  skip : ℕ → Event

unfoldable pub step : Env → Event → Fsm → Fsm
unfolding on_layout_ready on_vault_event grace_fired quiet_fired set_designated set_auth_lost
    set_auth_restored on_backup_started trigger_backup_now set_blocked clear_block on_backup_blocked
    on_backup_success on_backup_failure tick promote_overdue preflight_window start_due
    recover_on_startup onunload on_start_now on_postpone_1h on_skip on_state_change unsubscribe
step env layout_ready s = on_layout_ready env s
step env vault_event s = on_vault_event env s
step env grace_timeout s = grace_fired env s
step env quiet_timeout s = quiet_fired s
step env (designated d) s = set_designated d s
step env lose_auth s = set_auth_lost s
step env restore_auth s = set_auth_restored s
step env backup_started s = on_backup_started s
step env (trigger_now k) s = (trigger_backup_now env k s).0
step env block s = set_blocked s
step env unblock s = clear_block s
step env backup_blocked s = on_backup_blocked s
step env backup_success s = on_backup_success env s
step env backup_failure s = on_backup_failure s
step env clock_tick s = tick env s
step env recover s = recover_on_startup env s
step env unload s = onunload s
step env (subscribed id) s = on_state_change id s
step env (unsubscribed id) s = unsubscribe id s
step env start_now s = on_start_now env s
step env (postpone t) s = on_postpone_1h t s
step env (skip t) s = on_skip t s

-- A life of the machine: each event with what the call reads.
unfoldable pub run : List (Env × Event) → Fsm → Fsm
run [] s = s
run ((env, e) ∷ es) s = run es (step env e s)
