-- ===== src/Scheduler/Notices.antt =====
-- How often the preflight notice is shown for one instant of the schedule.
use obsidian_archivist.Scheduler.Planner.{
  compute_next_scheduled_full_at, is_scheduled_full_overdue, is_at,
}
use obsidian_archivist.Scheduler.Tick.{promote_overdue, start_due, preflight_window, tick}
use obsidian_archivist.Scheduler.Timers.{transition}
use obsidian_archivist.Common.{
  refl, false, ◌==◌, ◌&&◌, arith, ◌≤◌, ◌+◌, not, ◌≡◌, if◌then◌else◌, ◌++◌, map, List, ℕ, [], ◌∷◌,
}
use obsidian_archivist.Scheduler.State.{
  backup_running, Effect, Env, Fsm, show_preflight, notify, FsmState,
}

-- How often the notice was shown for an instant.
abbrev pub shown : ℕ → List Effect → ℕ
shown t [] = 0
shown t (show_preflight u ∷ es) = (if t == u then 1 else 0) + shown t es
shown t (_ ∷ es) = shown t es

shown-append : (t : ℕ) (es fs : List Effect) → shown t (es ++ fs) ≡ shown t es + shown t fs
shown-append t [] fs = omega arith
shown-append t (show_preflight u ∷ es) fs = omega (arith, shown-append t es fs)
shown-append t (_ ∷ es) fs = shown-append t es fs

shown-notify :
    (t : ℕ) (to from : FsmState) (ids : List ℕ) → shown t (map (λ id. notify id to from) ids) ≡ 0
shown-notify t to from [] = refl
shown-notify t to from (id ∷ ids) = shown-notify t to from ids

-- What a run of ticks can still show of an instant.
announces : ℕ → Fsm → ℕ
announces t s = shown t s.effects + (if is_at s.preflight_fired_for t then 0 else 1)

announces-transition :
    (t : ℕ) (to : FsmState) (s : Fsm) → announces t (transition to s) ≡ announces t s
unfolding announces transition
announces-transition t to s = ground (
  arith,
  shown-append t s.effects (map (λ id. notify id to s.state) s.subscribers),
  shown-notify t to s.state s.subscribers,
)

announces-start_due :
    (env : Env) (t u : ℕ) (s : Fsm) → announces t (start_due env u s) ≡ announces t s
unfolding announces start_due
announces-start_due env t u s = ground (
  arith,
  shown-append t s.effects (map (λ id. notify id backup_running s.state) s.subscribers),
  shown-notify t backup_running s.state s.subscribers,
)

announces-preflight :
    (env : Env) (t : ℕ) (s : Fsm) → announces t (preflight_window env t s) ≤ announces t s
unfolding announces preflight_window
announces-preflight env t s = ground (arith, shown-append t s.effects (show_preflight t ∷ []))

-- The tick sees the slot `t`, and turns no slot that has passed into a catch-up.
abbrev pub Sees : ℕ → Env → Fsm → Type 0
Sees t env s =
    (compute_next_scheduled_full_at env s ≡ t)
    × ((not s.catchup_pending && is_scheduled_full_overdue env s) ≡ false)

announces-tick :
    (env : Env) (t : ℕ) (s : Fsm) → Sees t env s → announces t (tick env s) ≤ announces t s
unfolding tick promote_overdue
announces-tick env t s h =
    ground
      (arith, announces-preflight env t s, announces-start_due env t t (preflight_window env t s))

abbrev pub ticks : List Env → Fsm → Fsm
ticks [] s = s
ticks (env ∷ es) s = ticks es (tick env s)

abbrev pub AllSee : ℕ → List Env → Fsm → Type 0
AllSee t [] s = Unit {0}
AllSee t (env ∷ es) s = Sees t env s × AllSee t es (tick env s)

announces-ticks :
    (t : ℕ) (envs : List Env) (s : Fsm)
    → AllSee t envs s
    → announces t (ticks envs s) ≤ announces t s
announces-ticks t [] s h = omega arith
announces-ticks t (env ∷ es) s h =
    omega (arith, announces-ticks t es (tick env s) h.1, announces-tick env t s h.0)

-- However many ticks see the same next slot, the preflight notice is shown once for it at most, if
-- no tick of the run turns a slot that has passed into a catch-up.
pub shown-ticks :
    (t : ℕ) (envs : List Env) (s : Fsm)
    → AllSee t envs s
    → shown t (ticks envs s).effects ≤ shown t s.effects + 1
unfolding announces
shown-ticks t envs s h = ground (arith, announces-ticks t envs s h)
