-- ===== src/Backup/Commit.antt =====
-- src/services/BackupService.ts, `commitSnapshot`: the steps of a commit, on what is stored remotely
-- and locally. A step that fails ends the commit with what the steps before it left.
use obsidian_archivist.Store.Index.{IndexFile, manifest_to_index_entry}
use obsidian_archivist.Restore.Chain.{is_full_kind}
use obsidian_archivist.Backup.LocalIndex.{save_local_index}
use obsidian_archivist.Startup.Report.{HeadFile, head, Head}
use obsidian_archivist.Model.Manifest.{LocalIndex, SnapshotManifest}
use obsidian_archivist.Events.Queue.{EventQueue, commit_window}
use obsidian_archivist.Common.Text.{Text-discrete, Text}
use obsidian_archivist.Store.Heal.{Attempts, Hook, append_with_self_heal}
use obsidian_archivist.Model.Failure.{ok, err, Failure, Result}
use obsidian_archivist.Backup.Uploads.{
  collect_new_blobs, upload_blobs, FileData, UploadFails, Blobs,
}
use obsidian_archivist.Backup.Rebuild.{RebuildCalls, rebuild_hook}
use obsidian_archivist.Paths.Remote.{snapshot_path, head_path}
use obsidian_archivist.Devices.Coordinator.{
  Coordinator, no_options, DeviceCalls, verify_no_conflict,
}
use obsidian_archivist.Common.{ℕ, put, if◌then◌else◌, Option, none, some, List, []}

-- The remote folder (blobs by hash, manifests by id, the index and HEAD), the saved local index, the
-- queue and the device.
pub record World : Type 0 where
  pub blobs : Blobs
  pub manifests : List (Text × SnapshotManifest)
  pub index_file : IndexFile
  pub head_file : HeadFile
  pub local_index : Option LocalIndex
  pub queue : EventQueue
  pub device : Coordinator

-- The outcomes of the calls of a commit, those of a rebuild included where it is wired.
pub record CommitCalls : Type 0 where
  pub upload_fails : UploadFails
  pub check : DeviceCalls
  pub head_download_fails : Option Failure
  pub manifest_fails : Option Failure
  pub attempts : Attempts
  pub rebuild : Option RebuildCalls
  pub head_fails : Option Failure
  pub load_index_fails : Option Failure
  pub save_index_fails : Option Failure
  pub save_queue_fails : Option Failure
  pub committed_at : Text

pub record CommitArgs : Type 0 where
  pub vault_prefix : Text
  pub manifest : SnapshotManifest
  pub file_data : FileData
  pub parallelism : ℕ
  pub cursor : Text

abbrev pub Step : Type 0
Step = World → World × Result (Unit {0})

abbrev pub and_then : World × Result (Unit {0}) → Step → World × Result (Unit {0})
and_then (w, err f) t = (w, err f)
and_then (w, ok u) t = t w

infixl 5 ◌>>◌
abbrev pub ◌>>◌ : Step → Step → Step
◌>>◌ s t w = and_then (s w) t

-- Step 1, for an incremental.
unfoldable pub blobs_step : CommitArgs → CommitCalls → Step
blobs_step args calls w =
    if is_full_kind args.manifest.kind
    then (w, ok tt)
    else let (after, result) =
        upload_blobs args.vault_prefix calls.upload_fails args.parallelism
          (collect_new_blobs args.file_data []) w.blobs in
      (record w { blobs = after }, result)

-- Step 2.
unfoldable pub check_step : CommitCalls → Step
check_step calls w =
    let (after, result) =
      verify_no_conflict calls.check no_options calls.head_download_fails w.head_file w.device in
    (record w { device = after }, result)

abbrev pub outcome : Option Failure → World → World → World × Result (Unit {0})
outcome none after w = (after, ok tt)
outcome (some f) after w = (w, err f)

-- `uploadJson` to a path, which may be no path.
abbrev pub write_to : Result Text → Option Failure → World → World → World × Result (Unit {0})
write_to (err f) fails after w = (w, err f)
write_to (ok path) fails after w = outcome fails after w

-- Step 3.
unfoldable pub manifest_step : CommitArgs → CommitCalls → Step
manifest_step args calls w =
    let m = args.manifest in
    write_to (snapshot_path m.vault_prefix m.id) calls.manifest_fails
      (record w { manifests = put Text-discrete w.manifests m.id m }) w

abbrev pub hook_of : Option RebuildCalls → Text → World → Option Hook
hook_of none prefix w = none
hook_of (some calls) prefix w = some (rebuild_hook prefix calls w.manifests)

-- Step 4.
unfoldable pub index_step : CommitArgs → CommitCalls → Step
index_step args calls w =
    let (after, result) =
      append_with_self_heal calls.attempts (hook_of calls.rebuild args.vault_prefix w)
        (manifest_to_index_entry args.manifest) w.index_file in
    (record w { index_file = after }, result)

abbrev pub committed_head : SnapshotManifest → Text → Head
committed_head m committed_at = record {
  snapshot_id = m.id;
  snapshot_type = m.kind;
  device_id = m.device_id;
  committed_at = committed_at;
}

-- Step 5.
unfoldable pub head_step : CommitArgs → CommitCalls → Step
head_step args calls w =
    write_to (head_path args.vault_prefix) calls.head_fails
      (record w { head_file = head (committed_head args.manifest calls.committed_at) }) w

-- Step 6.
unfoldable pub local_step : CommitArgs → CommitCalls → Step
local_step args calls w = elim calls.load_index_fails [
  | some f ↦ (w, err f)
  | none ↦
      outcome calls.save_index_fails
        (record w {
          local_index = some (save_local_index w.local_index args.manifest calls.committed_at);
        })
        w
]

-- Step 7.
unfoldable pub queue_step : CommitArgs → CommitCalls → Step
queue_step args calls w =
    let (after, result) = commit_window calls.save_queue_fails args.cursor w.queue in
    (record w { queue = after }, result)

unfoldable pub commit_snapshot : CommitArgs → CommitCalls → Step
commit_snapshot args calls =
    blobs_step args calls
    >> check_step calls
    >> manifest_step args calls
    >> index_step args calls
    >> head_step args calls
    >> local_step args calls
    >> queue_step args calls
