-- ===== src/Scheduler/Timers.antt =====
-- src/services/SchedulerFSM.ts: the state at construction, the subscribers, the transitions and
-- the two timers with their callbacks.
use obsidian_archivist.Common.{
  filter, ℕ, zero, suc, ◌+◌, ◌*◌, Bool, true, false, Option, none, some, List, [], ◌∷◌, ◌++◌, map,
  eqb, ◌==◌, not, if◌then◌else◌,
}
use obsidian_archivist.Scheduler.State.{
  FsmState, loading, grace, quiet_wait, ready, FsmState-discrete, Effect, notify, set_timeout,
  clear_timeout, Fsm, Env,
}

abbrev pub is_state : FsmState → FsmState → Bool
is_state = eqb FsmState-discrete

abbrev pub init : Fsm
init = record {
  state = loading;
  grace_timer = none;
  grace_timer_end_at = none;
  quiet_timer = none;
  quiet_timer_end_at = none;
  subscribers = [];
  full_override = none;
  skipped_cycle = none;
  preflight_fired_for = none;
  catchup_pending = false;
  pending_backup = none;
  effects = [];
}

-- The subscribers are told in order, after the state has changed.
unfoldable pub transition : FsmState → Fsm → Fsm
unfolding FsmState-discrete
transition to s = if is_state s.state to then s else record s {
  state = to;
  effects = s.effects ++ map (λ id. notify id to s.state) s.subscribers;
}

-- `onStateChange`, and the function that it returns.
unfoldable pub on_state_change : ℕ → Fsm → Fsm
on_state_change id s = record s { subscribers = s.subscribers ++ id ∷ [] }

unfoldable pub unsubscribe : ℕ → Fsm → Fsm
unsubscribe id s = record s { subscribers = filter (λ j. not (j == id)) s.subscribers }

-- `if (timer)`: a handle that is there and is not 0.
abbrev pub is_set : Option ℕ → Bool
is_set none = false
is_set (some zero) = false
is_set (some (suc h)) = true

abbrev pub clear_effect : Option ℕ → List Effect
clear_effect none = []
clear_effect (some h) = clear_timeout h ∷ []

clear_grace_timer : Fsm → Fsm
clear_grace_timer s =
    if is_set s.grace_timer
    then record s {
      effects = s.effects ++ clear_effect s.grace_timer;
      grace_timer = none;
      grace_timer_end_at = none;
    }
    else s

clear_quiet_timer : Fsm → Fsm
clear_quiet_timer s =
    if is_set s.quiet_timer
    then record s {
      effects = s.effects ++ clear_effect s.quiet_timer;
      quiet_timer = none;
      quiet_timer_end_at = none;
    }
    else s

unfoldable pub clear_timers : Fsm → Fsm
unfolding clear_grace_timer clear_quiet_timer
clear_timers s = clear_quiet_timer (clear_grace_timer s)

unfoldable pub reset_quiet_timer : Env → Fsm → Fsm
reset_quiet_timer env s =
    let ms = env.quiet_after_event_minutes * 60 * 1000 in
    let cleared = if is_set s.quiet_timer then clear_effect s.quiet_timer else [] in
    record s {
      quiet_timer_end_at = some (env.now + ms);
      quiet_timer = some env.next_handle;
      effects = s.effects ++ cleared ++ set_timeout ms ∷ [];
    }

unfoldable pub enter_quiet_wait : Env → Fsm → Fsm
unfolding reset_quiet_timer transition
enter_quiet_wait env s = reset_quiet_timer env (transition quiet_wait s)

unfoldable pub enter_grace : Env → Fsm → Fsm
unfolding transition
enter_grace env s =
    let ms = env.startup_grace_minutes * 60 * 1000 in
    let t = transition grace s in
    record t {
      grace_timer_end_at = some (env.now + ms);
      grace_timer = some env.next_handle;
      effects = t.effects ++ set_timeout ms ∷ [];
    }

-- The callbacks that the two `setTimeout` calls register.
unfoldable pub grace_fired : Env → Fsm → Fsm
unfolding enter_quiet_wait
grace_fired env s =
    let t = record s { grace_timer = none; grace_timer_end_at = none } in
    if is_state t.state grace then enter_quiet_wait env t else t

unfoldable pub quiet_fired : Fsm → Fsm
unfolding transition
quiet_fired s =
    let t = record s { quiet_timer = none; quiet_timer_end_at = none } in
    if is_state t.state quiet_wait then transition ready t else t
