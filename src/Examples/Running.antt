-- ===== src/Examples/Running.antt =====
-- Commits and backups that heal a corrupt index, at concrete inputs.
use obsidian_archivist.Backup.Planning.{plan_reconciled, rename_paths, sort_found}
use obsidian_archivist.Backup.Buckets.{rename_entries}
use obsidian_archivist.Backup.Reconciled.{plan_reconciled_lem}
use obsidian_archivist.Common.{has, not, false, ◌&&◌, ◌||◌}
use obsidian_archivist.Backup.Planning.{verify_chain, make_plan, plan_queued, max_observed}
use obsidian_archivist.Backup.ChainWalk.{walk_chain_to_full}
use obsidian_archivist.Paths.Remote.{
  snapshot_path, content_path, is_vault_prefix, snapshots_dir, head_path,
}
use obsidian_archivist.Paths.Stamps.{read_snapshot_id, read_stamp, group, take_digits, derive_id}
use obsidian_archivist.Backup.Buckets.{bucket_queue_entries, bucket_entry, build_changes}
use obsidian_archivist.Backup.Session.{assert_vault_ownership}
use obsidian_archivist.Backup.Runs.{verify_first, device_id_of}
use obsidian_archivist.Devices.Coordinator.{verify_no_conflict, get_or_create_device_id}
use obsidian_archivist.Backup.Uploads.{
  read_and_hash_files, read_batches, read_batch, batches, resolve_parallelism, upload_blobs,
  upload_batches, upload_batch, blob_failure, collect_new_blobs,
}
use obsidian_archivist.Backup.IncRuns.{inc_changes}
use obsidian_archivist.Backup.Building.{build_inc_manifest, inc_files}
use obsidian_archivist.Backup.Commit.{
  blobs_step, check_step, manifest_step, index_step, head_step, local_step, queue_step,
}
use obsidian_archivist.Store.Heal.{append_with_self_heal}
use obsidian_archivist.Store.Index.{append, read, rebuild_from_entries, manifest_to_index_entry}
use obsidian_archivist.Backup.Rebuild.{rebuild_hook}
use obsidian_archivist.Store.Repair.{
  fetch_batch, fetch_batches, rebuild_snapshot_index, read_existing_index_ids,
  list_manifest_entries, download_valid_manifests,
}
use obsidian_archivist.Events.Queue.{commit_window}
use obsidian_archivist.Examples.Rebuilding.{restorable, restorable-IsConsistent}
use obsidian_archivist.Examples.Commits.{args_of, first_inc}
use obsidian_archivist.Examples.Backups.{hasher, calls, commit_calls, new_service}
use obsidian_archivist.Store.Index.{corrupt}
use obsidian_archivist.Backup.Protocol.{commit_snapshot-keeps}
use obsidian_archivist.Backup.Stages.{IsReady, Saved}
use obsidian_archivist.Backup.Consistent.{IsConsistent}
use obsidian_archivist.Backup.Commit.{World, commit_snapshot}
use obsidian_archivist.Backup.IncRun.{run_incremental-commits}
use obsidian_archivist.Backup.IncRuns.{run_incremental}
use obsidian_archivist.Backup.IncSteps.{Done}
use obsidian_archivist.Backup.Runs.{RunCalls}
use obsidian_archivist.Backup.RunKeeps.{Sound}
use obsidian_archivist.Backup.Session.{Service}
use obsidian_archivist.Backup.Reconciled.{
  run_backups-Sound, run_backups, full_backup, inc_backup, Backup,
}
use obsidian_archivist.Events.Queue.{empty_queue}
use obsidian_archivist.Model.Failure.{IfOk, ok}
use obsidian_archivist.Model.Manifest.{QueueEntry, ChangeType}
use obsidian_archivist.Common.Text.{codes, Text-discrete}
use obsidian_archivist.Common.{refl, arith, true, ◌≡◌, none, some, List, [], ◌∷◌}

-- After a full backup, with a corrupt index and an edit in the queue.
abbrev edited : QueueEntry
edited = record {
  id = codes "e1";
  change = ChangeType.modify;
  path = codes "b.md";
  prev_path = none;
  observed_at = codes "2026-04-23T14:20:00Z";
}

abbrev queued : World
queued = record restorable {
  index_file = some corrupt;
  queue = record {
    state = empty_queue;
    initialized = true;
    saved = record empty_queue { entries = edited ∷ [] };
  };
}

queued-IsConsistent : IsConsistent hasher queued
queued-IsConsistent = record {
  hashed = restorable-IsConsistent.hashed;
  backed = restorable-IsConsistent.backed;
  keyed = restorable-IsConsistent.keyed;
  listed = refl;
  headed = restorable-IsConsistent.headed;
  indexed = restorable-IsConsistent.indexed;
}

inc_args-IsReady : IsReady hasher (args_of first_inc)
unfolding Text-discrete
inc_args-IsReady = record { positive = omega arith; read = refl; covered = refl }

commit_snapshot-keeps_example :
    let (after, result) = commit_snapshot (args_of first_inc) commit_calls queued in
    IsConsistent hasher after
    × IfOk (λ (u : Unit {0}). Saved hasher (args_of first_inc) commit_calls after) result
commit_snapshot-keeps_example =
    commit_snapshot-keeps hasher (args_of first_inc) commit_calls queued inc_args-IsReady
      (queued-IsConsistent, λ k. absurd (ground arith))

abbrev inc_calls : RunCalls
inc_calls = record calls {
  created_at = codes "2026-04-23T14:30:00.000Z";
  vault_files =
      record { path = codes "a.md"; mtime = 5; size = 1 }
      ∷ record { path = codes "b.md"; mtime = 6; size = 1 }
      ∷ [];
}

abbrev backed_up : Service
backed_up = record (new_service none) { world = queued }

run_incremental_test : (run_incremental inc_calls backed_up).1 ≡ ok 1
unfolding run_incremental verify_chain walk_chain_to_full snapshot_path read_snapshot_id read_stamp
    group take_digits make_plan plan_queued bucket_queue_entries bucket_entry assert_vault_ownership
    verify_first verify_no_conflict device_id_of get_or_create_device_id read_and_hash_files
    read_batches read_batch batches resolve_parallelism build_changes inc_changes build_inc_manifest
    inc_files derive_id commit_snapshot blobs_step upload_blobs upload_batches upload_batch
    blob_failure content_path is_vault_prefix collect_new_blobs check_step manifest_step index_step
    append_with_self_heal append read rebuild_hook rebuild_snapshot_index read_existing_index_ids
    list_manifest_entries download_valid_manifests rebuild_from_entries snapshots_dir
    manifest_to_index_entry head_step head_path local_step queue_step commit_window max_observed
    Text-discrete fetch_batch fetch_batches
run_incremental_test = refl

run_incremental-commits_example :
    let (after, result) = run_incremental inc_calls backed_up in
    Sound hasher after × IfOk (λ n. Done inc_calls queued n after) result
run_incremental-commits_example = run_incremental-commits inc_calls backed_up queued-IsConsistent

abbrev two_backups : List Backup
two_backups = inc_backup inc_calls ∷ full_backup calls ∷ []

run_backups-Sound_example : Sound hasher (run_backups two_backups backed_up)
run_backups-Sound_example =
    run_backups-Sound hasher two_backups backed_up (refl, (refl, tt)) queued-IsConsistent

-- A file that was renamed and then modified.
abbrev two_events : List QueueEntry
two_events =
    record edited {
      change = ChangeType.rename;
      path = codes "new.md";
      prev_path = some (codes "old.md");
    }
    ∷ record edited { path = codes "new.md" }
    ∷ []

-- The plan of the reconcile pass does not read it.
plan_reconciled_lem_example :
    let found = codes "new.md" ∷ [] in
    let plan = plan_reconciled two_events found found in
    let buckets = bucket_queue_entries two_events in
    let renamed = rename_paths (rename_entries buckets) in
    (has Text-discrete plan.changes_paths (codes "new.md") ≡ (
      has Text-discrete found (codes "new.md")
      && not (has Text-discrete renamed (codes "new.md"))
      && has Text-discrete found (codes "new.md")))
    × (has Text-discrete plan.deleted (codes "new.md") ≡ (
        has Text-discrete buckets.deleted (codes "new.md")
        || (has Text-discrete found (codes "new.md")
            && not (has Text-discrete renamed (codes "new.md"))
            && not (has Text-discrete found (codes "new.md")))))
plan_reconciled_lem_example =
    plan_reconciled_lem two_events (codes "new.md" ∷ []) (codes "new.md" ∷ []) (codes "new.md")

rename_then_modify_test :
    has Text-discrete
      (plan_reconciled two_events (codes "new.md" ∷ []) (codes "new.md" ∷ [])).changes_paths
      (codes "new.md")
    ≡ false
unfolding plan_reconciled bucket_queue_entries bucket_entry sort_found Text-discrete
rename_then_modify_test = refl
