-- ===== src/Scheduler/Invariant.antt =====
-- What holds of the machine between two calls: a timer is pending only in the state that waits
-- for it, and the instants that the tooltip reads belong to pending timers.
use obsidian_archivist.Scheduler.Planner.{compute_next_scheduled_full_at, fire_preflight}
use obsidian_archivist.Scheduler.Machine.{
  run, clock_tick, recover, layout_ready, vault_event, grace_timeout, quiet_timeout, designated,
  lose_auth, trigger_now, block, trigger_now, designated, Event, step,
}
use obsidian_archivist.Scheduler.Timers.{is_state, transition, init}
use obsidian_archivist.Scheduler.Tick.{start_due, preflight_window, promote_overdue, tick}
use obsidian_archivist.Common.{
  ◌&&◌, not, ℕ, Bool-cases, inr, inl, ◌⊎◌, ◌∙◌, [], ◌∷◌, List, ◌<◌, some, is_some, arith, none, ◌≡◌,
  ◌≢◌,
}
use obsidian_archivist.Scheduler.State.{error, ready, Fsm, Env, grace, quiet_wait}

pub record TimersMatch (s : Fsm) : Type 0 where
  pub grace_waits : s.grace_timer ≢ none → s.state ≡ grace
  pub grace_end : is_some s.grace_timer ≡ is_some s.grace_timer_end_at
  pub grace_handle : s.grace_timer ≢ some 0
  pub quiet_waits : s.quiet_timer ≢ none → s.state ≡ quiet_wait
  pub quiet_end : is_some s.quiet_timer ≡ is_some s.quiet_timer_end_at
  pub quiet_handle : s.quiet_timer ≢ some 0

pub init-TimersMatch : TimersMatch init
init-TimersMatch = ground arith

-- The timers and their ends are the same.
abbrev pub Kept : Fsm → Fsm → Type 0
Kept s t =
    (t.grace_timer ≡ s.grace_timer)
    × (t.grace_timer_end_at ≡ s.grace_timer_end_at)
    × (t.quiet_timer ≡ s.quiet_timer)
    × (t.quiet_timer_end_at ≡ s.quiet_timer_end_at)

Kept-trans : (s t u : Fsm) → Kept s t → Kept t u → Kept s u
Kept-trans s t u h k = (k.0 ∙ h.0, k.1 ∙ h.1, k.2 ∙ h.2, k.3 ∙ h.3)

-- With the same timers the match holds on where the state stays, or waits for no timer.
Kept-TimersMatch :
    (s t : Fsm)
    → Kept s t
    → (t.state ≡ s.state) ⊎ ((s.state ≢ grace) × (s.state ≢ quiet_wait))
    → TimersMatch s
    → TimersMatch t
Kept-TimersMatch s t k (inl e) h = ground arith
Kept-TimersMatch s t k (inr n) h = ground arith

promote_overdue-Kept : (env : Env) (s : Fsm) → Kept s (promote_overdue env s)
unfolding promote_overdue
promote_overdue-Kept env s = ground arith

preflight_window-Kept : (env : Env) (t : ℕ) (s : Fsm) → Kept s (preflight_window env t s)
unfolding preflight_window fire_preflight
preflight_window-Kept env t s = ground arith

start_due-Kept : (env : Env) (t : ℕ) (s : Fsm) → Kept s (start_due env t s)
unfolding start_due transition
start_due-Kept env t s = ground arith

tick-Kept :
    (env : Env) (s : Fsm)
    → (tick env s ≡ s) ⊎ (Kept s (tick env s) × (s.state ≢ grace) × (s.state ≢ quiet_wait))
unfolding tick
tick-Kept env s =
    elim (Bool-cases
      (not (not (is_state s.state ready) && not (is_state s.state error)) && env.is_designated)) [
        | inr c ↦ inl (ground arith)
        | inl c ↦ inr (
          (let p = promote_overdue env s in
              let t = compute_next_scheduled_full_at env p in
              let w = preflight_window env t p in
              let goes : tick env s ≡ start_due env t w = ground arith in
              rw goes (
                Kept-trans s w (start_due env t w)
                  (Kept-trans s p w (promote_overdue-Kept env s) (preflight_window-Kept env t p))
                  (start_due-Kept env t w))),
          ground arith,
          ground arith,
        )
      ]

tick-TimersMatch : (env : Env) (s : Fsm) → TimersMatch s → TimersMatch (tick env s)
tick-TimersMatch env s h = elim (tick-Kept env s) [
  | inl e ↦ rw e h
  | inr (k, g, q) ↦ Kept-TimersMatch s (tick env s) k (inr (g, q)) h
]

-- Every call keeps the match of timers and states, where `setTimeout` returns positive handles.
pub step-TimersMatch :
    (env : Env) (e : Event) (s : Fsm)
    → 0 < env.next_handle
    → TimersMatch s
    → TimersMatch (step env e s)
unfolding step
step-TimersMatch env clock_tick s p h = tick-TimersMatch env s h
step-TimersMatch env recover s p h = ground arith
step-TimersMatch env layout_ready s p h = ground arith
step-TimersMatch env vault_event s p h = ground arith
step-TimersMatch env grace_timeout s p h = ground arith
step-TimersMatch env quiet_timeout s p h = ground arith
step-TimersMatch env (designated d) s p h = ground arith
step-TimersMatch env lose_auth s p h = ground arith
step-TimersMatch env (trigger_now k) s p h = ground arith
step-TimersMatch env block s p h = ground arith
step-TimersMatch env _ s p h = ground arith

-- Each call of a life reads a positive handle.
abbrev pub HandlesPositive : List (Env × Event) → Type 0
HandlesPositive [] = Unit {0}
HandlesPositive ((env, e) ∷ es) = (0 < env.next_handle) × HandlesPositive es

-- In every state that a life of the machine reaches from a matching one, a pending grace timer
-- means the state `grace`, a pending quiet timer means `quiet_wait`, and an end instant is there
-- exactly while its timer is, if every handle that `setTimeout` returns is positive.
pub run-TimersMatch :
    (es : List (Env × Event)) (s : Fsm)
    → HandlesPositive es
    → TimersMatch s
    → TimersMatch (run es s)
unfolding run
run-TimersMatch [] s p h = h
run-TimersMatch ((env, e) ∷ es) s p h =
    run-TimersMatch es (step env e s) p.1 (step-TimersMatch env e s p.0 h)
