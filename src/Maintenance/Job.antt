-- ===== src/Maintenance/Job.antt =====
-- src/services/MaintenanceScheduler.ts: the check whether retention is due, and the job that it
-- posts, in two steps: the start, with the index that the job keeps, and the end, by how the
-- retention and the save went. The subscribers see the list of events.
use obsidian_archivist.Backup.LocalIndex.{base_of}
use obsidian_archivist.Retention.Dates.{Dates}
use obsidian_archivist.Model.Failure.{Failure, Result, ok, err}
use obsidian_archivist.Model.Manifest.{LocalIndex}
use obsidian_archivist.Common.Text.{Text}
use obsidian_archivist.Common.{
  ltb, ◌+◌, ◌++◌, if◌then◌else◌, ℕ, Bool, false, true, Option, none, some, List, [], ◌∷◌,
}

pub data MaintenanceEvent : Type 0 where
  maintenance_started maintenance_done maintenance_failed : MaintenanceEvent

-- The events so far, and whether the current controller's signal is aborted.
pub record Maintenance : Type 0 where
  pub events : List MaintenanceEvent
  pub aborted : Bool

-- `now - last > interval`, false where the last time is no date.
unfoldable pub is_job_due : Dates → Option Text → ℕ → Bool
is_job_due dates none now = true
is_job_due dates (some last) now = elim (dates.time_of last) [
  | none ↦ false
  | some t ↦ ltb (t + 86400000) now
]

abbrev pub emit_event : MaintenanceEvent → Maintenance → Maintenance
emit_event e s = record s { events = s.events ++ e ∷ [] }

-- `scheduleRetentionIfDue` up to the first await of `runJob`: the index of the job that it starts.
unfoldable pub schedule_retention_if_due :
    Dates → ℕ → Result (Option LocalIndex) → Maintenance → Maintenance × Result (Option LocalIndex)
schedule_retention_if_due dates now (err f) s = (s, err f)
schedule_retention_if_due dates now (ok loaded) s =
    let index = base_of loaded in
    if is_job_due dates index.last_retention_at now
    then (emit_event maintenance_started (record s { aborted = false }), ok (some index))
    else (s, ok none)

-- How the retention went, how the save of the index fails, if it does, and the time of the save.
pub record JobCalls : Type 0 where
  pub retention : Result (Unit {0})
  pub save_fails : Option Failure
  pub now_iso : Text

-- The rest of `runJob`, on the stored index at that time.
unfoldable pub finish_job :
    LocalIndex → JobCalls → Maintenance × Option LocalIndex → Maintenance × Option LocalIndex
finish_job index calls (s, stored) = elim calls.retention [
  | err f ↦ (emit_event maintenance_failed s, stored)
  | ok u ↦ elim calls.save_fails [
    | some f ↦ (emit_event maintenance_failed s, stored)
    | none ↦ (
      emit_event maintenance_done s,
      some (record index { last_retention_at = some calls.now_iso }),
    )
  ]
]

abbrev pub onunload : Maintenance → Maintenance
onunload s = record s { aborted = true }
