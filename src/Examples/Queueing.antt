-- ===== src/Examples/Queueing.antt =====
-- The event queue at concrete inputs.
use obsidian_archivist.Backup.Buckets.{bucket_queue_entries}
use obsidian_archivist.Events.Dedup.{late_duplicate_lost, recreate_counts_as_deleted, enqueue_three}
use obsidian_archivist.Common.Text.{Text-discrete, Text, less}
use obsidian_archivist.Events.Queue.{
  advance_op, commit_op, enqueue, commit_window, enqueue_op, OptionText-discrete, Op, run_ops,
  empty_queue, EventQueue,
}
use obsidian_archivist.Events.Laws.{run_ops_keeps, run_ops-NoRepeats, In, NoRepeats}
use obsidian_archivist.Model.Failure.{unknown, Failure}
use obsidian_archivist.Common.{◌≡◌, refl, inl, true, ℕ, Option, none, some, List, [], ◌∷◌}
use obsidian_archivist.Model.Manifest.{QueueEntry, ChangeType-discrete, ChangeType}

abbrev one : ℕ → Text
one c = c ∷ []

abbrev event : ChangeType → ℕ → QueueEntry
event change at_time = record {
  id = at_time ∷ 1 ∷ [];
  change = change;
  path = one 10;
  prev_path = none;
  observed_at = one at_time;
}

-- Instants are written as one code, in milliseconds.
abbrev millis : Text → Option ℕ
millis [] = none
millis (c ∷ cs) = some c

abbrev opened : EventQueue
opened = record { state = empty_queue; initialized = true; saved = empty_queue }

abbrev holding : EventQueue
holding = record opened {
  state = record { committed_through = none; entries = event ChangeType.create 5 ∷ [] };
}

abbrev some_ops : List (Option Failure × Op)
some_ops =
    (some unknown, enqueue_op (event ChangeType.modify 2000))
    ∷ (none, commit_op (one 4))
    ∷ (none, advance_op (one 9))
    ∷ []

run_ops_keeps_example :
    In (event ChangeType.create 5) (run_ops millis some_ops holding).state.entries
unfolding less
run_ops_keeps_example =
    run_ops_keeps millis some_ops holding (event ChangeType.create 5) refl (inl refl)

run_ops-NoRepeats_example : NoRepeats millis (run_ops millis some_ops holding).state.entries
run_ops-NoRepeats_example = run_ops-NoRepeats millis some_ops holding (refl, tt)

late_duplicate_lost_example :
    let after =
      (commit_window none
        (one 5)
        (enqueue millis none (event ChangeType.create 600) holding).0).0 in
    (after.state.committed_through ≡ some (one 5)) × (after.state.entries ≡ [])
unfolding ChangeType-discrete Text-discrete OptionText-discrete less
late_duplicate_lost_example =
    late_duplicate_lost millis holding (event ChangeType.create 5) (event ChangeType.create 600)
      refl refl refl refl

recreate_counts_as_deleted_example :
    let after =
      run_ops millis
        (enqueue_three
          (event ChangeType.create 5)
          (event ChangeType.delete 6)
          (event ChangeType.create 7))
        opened in
    let b = bucket_queue_entries after.state.entries in (b.changes ≡ []) × (b.deleted ≡ one 10 ∷ [])
unfolding ChangeType-discrete Text-discrete OptionText-discrete less
recreate_counts_as_deleted_example =
    recreate_counts_as_deleted millis opened (event ChangeType.create 5) (event ChangeType.delete 6)
      (event ChangeType.create 7) refl refl (refl, refl) refl refl
