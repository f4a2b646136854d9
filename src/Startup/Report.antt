-- ===== src/Startup/Report.antt =====
-- src/services/StartupRecovery.ts and src/model/StartupState.ts: what the recovery reads, repairs and
-- reports.
use obsidian_archivist.Gc.Sweep.{LockFile}
use obsidian_archivist.Store.Index.{Net, IndexFile}
use obsidian_archivist.Model.Manifest.{SnapshotManifest, SnapshotType, LocalIndex}
use obsidian_archivist.Model.Failure.{Failure, Result}
use obsidian_archivist.Common.Text.{Text}
use obsidian_archivist.Common.{ℕ, false, Bool, Option, List, []}

-- Of src/model/StartupState.ts the states that the recovery reports.
pub data StartupState : Type 0 where
  healthy fresh_folder index_missing head_stale head_points_to_missing : StartupState
  snapshot_index_stale : StartupState

pub data Note : Type 0 where
  snapshot_index_rebuilt stale_gc_lock_found : Note

pub record StartupReport : Type 0 where
  pub state : StartupState
  pub stale_gc_lock : Bool
  pub notes : List Note

abbrev pub fresh_startup_report : StartupState → StartupReport
fresh_startup_report st = record { state = st; stale_gc_lock = false; notes = [] }

-- The HEAD file: absent, not a HEAD by its schema, or a HEAD.
pub record Head : Type 0 where
  pub snapshot_id : Text
  pub snapshot_type : SnapshotType
  pub device_id : Text
  pub committed_at : Text

pub data HeadFile : Type 0 where
  no_head not_a_head : HeadFile
  head : Head → HeadFile

pub record Disk : Type 0 where
  pub local_index : Option LocalIndex
  pub index_file : IndexFile
  pub head_file : HeadFile

-- An entry of the listing of the folder of snapshots.
pub record Listed : Type 0 where
  pub is_file : Bool
  pub path : Text

-- How the loads of the settings, the local index and the queue and the save of the index fail, if
-- they do. `download` gives the manifest at a path, none where the download fails or the schema is wrong.
pub record RecoveryEnv : Type 0 where
  pub settings_load_fails : Option Failure
  pub index_load_fails : Option Failure
  pub queue_load_fails : Option Failure
  pub save_index_fails : Option Failure
  pub listing : Result (List Listed)
  pub download : Text → Option SnapshotManifest
  pub index_net : Net
  pub rebuild_net : Net
  pub head_download_fails : Option Failure
  pub head_upload_fails : Option Failure
  pub head_delete_fails : Option Failure
  pub gc_lock : LockFile
  pub gc_lock_download_fails : Option Failure
  pub parse : Text → Option ℕ
  pub now : ℕ
  pub max_clock_skew_minutes : ℕ
