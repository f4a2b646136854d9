-- ===== src/Examples/Commits.antt =====
-- Commits one after another, refused backups and plans at concrete inputs.
use obsidian_archivist.Maintenance.Job.{
  JobCalls, Maintenance, schedule_retention_if_due, finish_job, is_job_due,
}
use obsidian_archivist.Maintenance.Lost.{commit_during_job_lost}
use obsidian_archivist.Retention.Dates.{Dates}
use obsidian_archivist.Backup.Consistent.{tip}
use obsidian_archivist.Common.{get}
use obsidian_archivist.Events.Queue.{commit_window}
use obsidian_archivist.Store.Index.{read, append}
use obsidian_archivist.Store.Heal.{append_with_self_heal}
use obsidian_archivist.Devices.Coordinator.{verify_no_conflict}
use obsidian_archivist.Paths.Remote.{head_path, snapshot_path, is_vault_prefix, content_path}
use obsidian_archivist.Backup.Collision.{same_minute_breaks}
use obsidian_archivist.Restore.Chain.{load_chain_to_full}
use obsidian_archivist.Devices.Uuid.{is_uuid_v4}
use obsidian_archivist.Backup.LocalIndex.{save_local_index}
use obsidian_archivist.Model.Failure.{chain_broken, vault_id_needs_adoption, err, ok}
use obsidian_archivist.Backup.Blocked.{IsRefused, run_incremental-refused}
use obsidian_archivist.Backup.Uploads.{
  blob_failure, batches, upload_batch, upload_batches, upload_blobs, collect_new_blobs,
}
use obsidian_archivist.Backup.Sync.{loader_of, commit_inc-InSync, InSync}
use obsidian_archivist.Restore.Replay.{materialize}
use obsidian_archivist.Backup.IncRuns.{run_incremental}
use obsidian_archivist.Common.Text.{codes, Text, Text-discrete}
use obsidian_archivist.Backup.Commit.{
  queue_step, local_step, head_step, index_step, manifest_step, check_step, CommitArgs, blobs_step,
  commit_snapshot, World,
}
use obsidian_archivist.Devices.Identity.{
  adopt_remote, parse_vault_meta, load_remote_vault_meta, meta_file, check_consistency, VaultMeta,
  Identity,
}
use obsidian_archivist.Paths.Stamps.{
  read_snapshot_id, derive_id, take_digits, group, read_stamp, Stamp,
}
use obsidian_archivist.Model.Manifest.{Files, SnapshotType, FileEntry, SnapshotManifest, LocalIndex}
use obsidian_archivist.Examples.Backups.{hasher, commit_calls, calls, empty_world, new_service}
use obsidian_archivist.Common.{refl, inl, arith, ◌≡◌, false, ℕ, Option, none, some, [], ◌∷◌}

abbrev manifest_of : Text → SnapshotType → Option Text → Text → Files → SnapshotManifest
manifest_of id kind parent created_at files = record {
  id = id;
  kind = kind;
  parent_id = parent;
  device_id = [];
  created_at = created_at;
  vault_name = [];
  vault_prefix = codes "notes";
  files = files;
  deleted = [];
  renames = [];
  exclusions_applied = none;
}

abbrev pub entry_at : ℕ → FileEntry
entry_at t = record { hash = hasher []; size = 1; mtime = t }

abbrev pub first_full : SnapshotManifest
first_full =
    manifest_of (codes "2026-04-23T14-00-full") SnapshotType.full none
      (codes "2026-04-23T14:00:07Z") ((codes "a.md", entry_at 1) ∷ [])

abbrev pub first_inc : SnapshotManifest
first_inc =
    manifest_of (codes "2026-04-23T14-30-inc") SnapshotType.inc (some first_full.id)
      (codes "2026-04-23T14:30:00Z") ((codes "b.md", entry_at 2) ∷ [])

-- Attached to an incremental of the same minute, whose id it has.
abbrev second_inc : SnapshotManifest
second_inc =
    manifest_of first_inc.id SnapshotType.inc (some first_inc.id) (codes "2026-04-23T14:30:59Z")
      ((codes "b.md", entry_at 3) ∷ [])

abbrev pub args_of : SnapshotManifest → CommitArgs
args_of m = record {
  vault_prefix = codes "notes";
  manifest = m;
  file_data = (codes "b.md", record { hash = hasher []; bytes = [] }) ∷ [];
  parallelism = 2;
  cursor = m.created_at;
}

abbrev pub index_of : LocalIndex
index_of = record {
  last_full_snapshot_id = some first_full.id;
  last_inc_snapshot_id = none;
  last_full_commit_at = none;
  last_inc_commit_at = none;
  last_retention_at = none;
  index_missing_recovery_required = false;
  files = first_full.files;
}

abbrev pub after_full : World
after_full = record empty_world {
  manifests = (first_full.id, first_full) ∷ [];
  local_index = some index_of;
}

after_full-InSync : InSync after_full index_of (first_full ∷ [])
unfolding materialize Text-discrete
after_full-InSync = record {
  saved = refl;
  linked = (first_full.id, refl, refl, inl (refl, refl));
  agrees = λ p. refl;
}

CommitGoesThrough : (m : SnapshotManifest) → Type 0
CommitGoesThrough m = (commit_snapshot (args_of m) commit_calls after_full).1 ≡ ok tt

first_inc_test : CommitGoesThrough first_inc
unfolding CommitGoesThrough commit_snapshot blobs_step collect_new_blobs upload_blobs upload_batches
    upload_batch batches blob_failure content_path is_vault_prefix check_step verify_no_conflict
    manifest_step snapshot_path read_snapshot_id read_stamp group take_digits index_step
    append_with_self_heal append read head_step head_path local_step queue_step commit_window
    Text-discrete
first_inc_test = refl

second_inc_test : CommitGoesThrough second_inc
unfolding CommitGoesThrough commit_snapshot blobs_step collect_new_blobs upload_blobs upload_batches
    upload_batch batches blob_failure content_path is_vault_prefix check_step verify_no_conflict
    manifest_step snapshot_path read_snapshot_id read_stamp group take_digits index_step
    append_with_self_heal append read head_step head_path local_step queue_step commit_window
    Text-discrete
second_inc_test = refl

commit_inc-InSync_example :
    InSync
      (commit_snapshot (args_of first_inc) commit_calls after_full).0
      (save_local_index (some index_of) first_inc (codes "later"))
      (first_inc ∷ first_full ∷ [])
unfolding Text-discrete CommitGoesThrough
commit_inc-InSync_example =
    commit_inc-InSync (args_of first_inc) commit_calls after_full index_of (first_full ∷ [])
      after_full-InSync refl refl refl refl tt (λ p d. absurd (ground arith)) first_inc_test

abbrev job : JobCalls
job = record { retention = ok tt; save_fails = none; now_iso = codes "evening" }

abbrev quiet : Maintenance
quiet = record { events = []; aborted = false }

abbrev dates : Dates
dates = record { time_of = λ t. none; local_fields = λ n. record { year = 0; month = 0; day = 1 } }

commit_during_job_lost_example :
    let (started, captured) = schedule_retention_if_due dates 0 (ok after_full.local_index) quiet in
    let after = (commit_snapshot (args_of first_inc) commit_calls after_full).0 in
    let committed = save_local_index (some index_of) first_inc (codes "later") in
    let finished = record index_of { last_retention_at = some (codes "evening") } in
    (captured ≡ ok (some index_of))
    × (get Text-discrete after.manifests first_inc.id ≡ some first_inc)
    × (after.local_index ≡ some committed)
    × (tip committed ≡ some first_inc.id)
    × ((finish_job index_of job (started, after.local_index)).1 ≡ some finished)
    × (tip finished ≡ tip index_of)
unfolding is_job_due CommitGoesThrough
commit_during_job_lost_example =
    commit_during_job_lost dates 0 quiet job (args_of first_inc) commit_calls after_full index_of
      refl refl first_inc_test refl refl

abbrev at_1430 : Stamp
at_1430 = record {
  year = codes "2026";
  month = codes "04";
  day = codes "23";
  hour = codes "14";
  minute = codes "30";
}

abbrev inc_index : LocalIndex
inc_index = record index_of { last_inc_snapshot_id = some first_inc.id }

same_minute_breaks_example :
    load_chain_to_full 2
      (loader_of (commit_snapshot (args_of second_inc) commit_calls after_full).0.manifests)
      first_inc.id
    ≡ some (err chain_broken)
unfolding read_stamp group take_digits derive_id CommitGoesThrough
same_minute_breaks_example =
    same_minute_breaks (args_of second_inc) commit_calls after_full inc_index 0
      (codes "2026-04-23T14:30:00Z") (codes "2026-04-23T14:30:59Z") (codes ":00Z") (codes ":59Z")
      at_1430 refl refl refl refl refl refl second_inc_test

-- The folder of another vault, to a device without a vault id.
abbrev foreign : VaultMeta
foreign = record {
  vault_id = codes "00010203-0405-4607-8809-0a0b0c0d0e0f";
  vault_name = codes "Other";
  claimed_at = codes "before";
}

abbrev without_id : Identity
without_id = record { local_id = none; remote = meta_file foreign }

is_refused : IsRefused calls vault_id_needs_adoption (new_service (some without_id))
unfolding check_consistency load_remote_vault_meta parse_vault_meta is_uuid_v4
is_refused = (without_id, adopt_remote foreign, refl, refl, refl, refl)

run_incremental-refused_example :
    (run_incremental calls (new_service (some without_id))).0.world ≡ empty_world
run_incremental-refused_example =
    run_incremental-refused calls vault_id_needs_adoption (new_service (some without_id)) is_refused
