-- ===== src/Scheduler/Planner.antt =====
-- src/services/SchedulerFSM.ts: when the next full is due, what counts as overdue, the batch
-- window of incrementals, and the three buttons of the preflight notice.
use obsidian_archivist.Common.{
  ℕ, ◌+◌, ◌-◌, ◌*◌, Bool, true, false, Option, none, some, [], ◌∷◌, ◌++◌, leb, ltb, ◌==◌,
  if◌then◌else◌,
}
use obsidian_archivist.Scheduler.State.{Effect, Fsm, Env, show_preflight, dismiss_preflight}

abbrev pub preflight_lead_ms : ℕ
preflight_lead_ms = 300000

abbrev pub postpone_ms : ℕ
postpone_ms = 3600000

-- `a === t` where `a` may be null.
abbrev pub is_at : Option ℕ → ℕ → Bool
is_at none t = false
is_at (some a) t = a == t

-- `a ?? t`.
abbrev pub or_else : Option ℕ → ℕ → ℕ
or_else none t = t
or_else (some a) t = a

abbrev pub emit : Effect → Fsm → Fsm
emit e s = record s { effects = s.effects ++ e ∷ [] }

abbrev pub dismiss : Env → Fsm → Fsm
dismiss env s = if env.can_dismiss then emit dismiss_preflight s else s

unfoldable pub next_inc_eligible_at : Env → Option ℕ
next_inc_eligible_at env = elim env.earliest_pending_observed_at [
  | none ↦ none
  | some earliest ↦ some (earliest + env.inc_interval_minutes * 60 * 1000)
]

-- `now - earliest >= window`, written without the subtraction, which may be negative there.
unfoldable pub inc_interval_elapsed : Env → Bool
inc_interval_elapsed env = elim env.earliest_pending_observed_at [
  | none ↦ false
  | some earliest ↦ leb (earliest + env.inc_interval_minutes * 60 * 1000) env.now
]

unfoldable pub compute_next_scheduled_full_at : Env → Fsm → ℕ
compute_next_scheduled_full_at env s = elim s.full_override [
  | some t ↦ t
  | none ↦
      let base = env.next_full_after env.now in
      if is_at s.skipped_cycle base then env.next_full_after (base + 1) else base
]

-- Where the next full lies before the last one the difference is negative in the source, and 0
-- here; both are within the lead.
unfoldable pub is_scheduled_full_overdue : Env → Fsm → Bool
is_scheduled_full_overdue env s = elim env.last_full_commit_at [
  | none ↦ false
  | some last ↦
      let next = env.next_full_after last in
      if ltb env.now next
      then false
      else if is_at s.skipped_cycle next
      then false
      else if leb (next - last) preflight_lead_ms
      then false
      else true
]

unfoldable pub recover_on_startup : Env → Fsm → Fsm
unfolding is_scheduled_full_overdue
recover_on_startup env s = elim env.last_full_commit_at [
  | none ↦ record s { catchup_pending = true }
  | some _ ↦ if is_scheduled_full_overdue env s then record s { catchup_pending = true } else s
]

unfoldable pub fire_preflight : ℕ → Fsm → Fsm
fire_preflight t s = emit (show_preflight t) (record s { preflight_fired_for = some t })

unfoldable pub on_start_now : Env → Fsm → Fsm
on_start_now env s = record s { full_override = some env.now; preflight_fired_for = none }

-- The callback keeps the instant that the notice was shown for.
unfoldable pub on_postpone_1h : ℕ → Fsm → Fsm
on_postpone_1h shown s = record s {
  full_override = some (or_else s.full_override shown + postpone_ms);
  preflight_fired_for = none;
}

unfoldable pub on_skip : ℕ → Fsm → Fsm
on_skip shown s = record s {
  skipped_cycle = some shown;
  full_override = none;
  preflight_fired_for = none;
}
