-- ===== src/Backup/IncRuns.antt =====
-- src/services/BackupService.ts, `runIncremental`.
use obsidian_archivist.Backup.Consistent.{tip}
use obsidian_archivist.Events.Queue.{commit_window}
use obsidian_archivist.Backup.Buckets.{build_changes}
use obsidian_archivist.Model.Failure.{ok, Result}
use obsidian_archivist.Backup.Commit.{commit_snapshot, Step}
use obsidian_archivist.Backup.Planning.{
  make_plan, verify_chain, is_nil, max_observed, detector_of, Plan,
}
use obsidian_archivist.Model.Manifest.{SnapshotManifest, QueueEntry, LocalIndex}
use obsidian_archivist.Backup.Uploads.{
  resolve_parallelism, read_and_hash_files, ReadFile, Octets, Number, FileData,
}
use obsidian_archivist.Backup.Building.{build_inc_manifest, IncChange, VaultFile}
use obsidian_archivist.Backup.Runs.{
  build_input, paths_of, commit_args, unless_failed, verify_first, run_full, device_id_of, RunCalls,
}
use obsidian_archivist.Common.Text.{Text-discrete, same, Text}
use obsidian_archivist.Backup.Session.{
  lift, assert_vault_ownership, on_world, bind_result, Run, Service, ◌>>=◌,
}
use obsidian_archivist.Common.{
  true, ◌&&◌, false, has, length, get, map, filter, if◌then◌else◌, ℕ, Bool, Option, none, some,
  List, [], ◌∷◌,
}

abbrev pub hash_map : FileData → List (Text × Text)
hash_map d = map (λ (e : Text × ReadFile). (e.0, e.1.hash)) d

abbrev pub find_file : Text → List VaultFile → Option VaultFile
find_file p [] = none
find_file p (f ∷ fs) = if same f.path p then some f else find_file p fs

abbrev pub size_of : Option VaultFile → Octets → ℕ
size_of none bytes = length bytes
size_of (some f) bytes = f.size

abbrev pub mtime_of : Option VaultFile → ℕ
mtime_of none = 0
mtime_of (some f) = f.mtime

-- The changes with their data. A path without data, at which the source would throw, is left out:
-- the changes are all among the data.
unfoldable pub inc_changes : List VaultFile → FileData → List Text → List IncChange
inc_changes fs d [] = []
inc_changes fs d (p ∷ ps) = elim (get Text-discrete d p) [
  | none ↦ inc_changes fs d ps
  | some r ↦
      (record {
        path = p;
        hash = r.hash;
        size = size_of (find_file p fs) r.bytes;
        mtime = mtime_of (find_file p fs);
      })
      ∷ inc_changes fs d ps
]

-- Of the method from its end to its start. The commit and how many files were written.
abbrev pub inc_commit : RunCalls → ℕ → FileData → List QueueEntry → SnapshotManifest → Run ℕ
inc_commit calls parallelism d entries m = do
  _ ← on_world (
      commit_snapshot (commit_args calls parallelism d (max_observed entries calls.created_at) m)
        calls.commit)
  lift (ok (length m.files))

abbrev pub inc_build :
    RunCalls → ℕ → FileData → List QueueEntry → Plan → List Text → Text → Text → Run ℕ
inc_build calls parallelism d entries plan changes device_id parent = do
  m ← lift (
      build_inc_manifest parent (inc_changes calls.vault_files d changes) plan.deleted plan.renames
        (build_input calls device_id))
  inc_commit calls parallelism d entries m

-- The parent, without which the backup is full.
abbrev pub inc_attach :
    RunCalls → ℕ → FileData → List QueueEntry → Plan → List Text → Text → Option Text → Run ℕ
inc_attach calls parallelism d entries plan changes device_id none = run_full calls
inc_attach calls parallelism d entries plan changes device_id (some parent) =
    inc_build calls parallelism d entries plan changes device_id parent

-- Nothing has changed: the cursor moves on.
abbrev pub skip_window : RunCalls → List QueueEntry → Step
skip_window calls entries w =
    let (after, result) =
      commit_window calls.commit.save_queue_fails (max_observed entries calls.created_at) w.queue in
    (record w { queue = after }, result)

abbrev pub inc_skip : RunCalls → List QueueEntry → Run ℕ
inc_skip calls entries = do _ ← on_world (skip_window calls entries); lift (ok 0)

abbrev pub inc_changed :
    RunCalls → ℕ → LocalIndex → List QueueEntry → Plan → Text → FileData → Run ℕ
inc_changed calls parallelism i entries plan device_id d =
    let changes = build_changes (hash_map d) plan.changes_paths i in
    if is_nil changes && is_nil plan.deleted && is_nil plan.renames
    then inc_skip calls entries
    else inc_attach calls parallelism d entries plan changes device_id (tip i)

abbrev pub existing_paths : List VaultFile → List Text → List Text
existing_paths fs ps = filter (has Text-discrete (paths_of fs)) ps

abbrev pub inc_read : RunCalls → ℕ → LocalIndex → List QueueEntry → Plan → Text → Run ℕ
inc_read calls parallelism i entries plan device_id = do
  d ← lift (
      read_and_hash_files calls.read calls.hasher parallelism
        (existing_paths calls.vault_files plan.changes_paths))
  inc_changed calls parallelism i entries plan device_id d

abbrev pub inc_device : RunCalls → ℕ → LocalIndex → List QueueEntry → Plan → Run ℕ
inc_device calls parallelism i entries plan = do
  device_id ← device_id_of calls
  inc_read calls parallelism i entries plan device_id

abbrev pub inc_checked : RunCalls → ℕ → LocalIndex → List QueueEntry → Plan → Run ℕ
inc_checked calls parallelism i entries plan = do
  _ ← on_world (verify_first calls)
  inc_device calls parallelism i entries plan

abbrev pub inc_owned : RunCalls → ℕ → LocalIndex → List QueueEntry → Plan → Run ℕ
inc_owned calls parallelism i entries plan = do
  _ ← assert_vault_ownership calls.identity_calls
  inc_checked calls parallelism i entries plan

-- With nothing to do the run ends before any remote call.
abbrev pub inc_planned : RunCalls → ℕ → LocalIndex → List QueueEntry → Option Plan → Run ℕ
inc_planned calls parallelism i entries none = lift (ok 0)
inc_planned calls parallelism i entries (some plan) = inc_owned calls parallelism i entries plan

abbrev pub load_entries : RunCalls → Service → Result (List QueueEntry)
load_entries calls s = unless_failed calls.load_queue_fails s.world.queue.saved.entries

abbrev pub inc_queued :
    RunCalls → Option (LocalIndex → Result (List Text)) → ℕ → LocalIndex → List QueueEntry → Run ℕ
inc_queued calls scan parallelism i entries = do
  plan ← lift (make_plan scan i entries (paths_of calls.vault_files))
  inc_planned calls parallelism i entries plan

abbrev pub inc_chosen : RunCalls → Option (LocalIndex → Result (List Text)) → ℕ → LocalIndex → Run ℕ
inc_chosen calls scan parallelism i s =
    bind_result (s, load_entries calls s) (inc_queued calls scan parallelism i)

-- A broken chain makes the backup full.
abbrev pub inc_chained :
    RunCalls → Option (LocalIndex → Result (List Text)) → ℕ → LocalIndex → Bool → Run ℕ
inc_chained calls scan parallelism i true = run_full calls
inc_chained calls scan parallelism i false = inc_chosen calls scan parallelism i

abbrev pub inc_indexed :
    RunCalls → Option (LocalIndex → Result (List Text)) → ℕ → Option LocalIndex → Run ℕ
inc_indexed calls scan parallelism none = run_full calls
inc_indexed calls scan parallelism (some i) = do
  broken ← verify_chain calls.vault_prefix calls.chain_fails i
  inc_chained calls scan parallelism i broken

abbrev pub load_index : RunCalls → Service → Result (Option LocalIndex)
load_index calls s = unless_failed calls.load_index_fails s.world.local_index

abbrev pub inc_settings : RunCalls → Bool → Option Number → Run ℕ
inc_settings calls was_first raw s =
    bind_result (s, load_index calls s)
      (inc_indexed calls
        (detector_of was_first calls.reconcile_scan_enabled calls.get_changed_paths)
        (resolve_parallelism raw))

-- `runIncremental`: how many files were written.
unfoldable pub run_incremental : RunCalls → Run ℕ
run_incremental calls s =
    bind_result
      (
        record s { first_inc_since_load = false },
        unless_failed calls.settings_fail calls.upload_parallelism,
      )
      (inc_settings calls s.first_inc_since_load)
