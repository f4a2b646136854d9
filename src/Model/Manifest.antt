-- ===== src/Model/Manifest.antt =====
-- src/model/Manifest.ts, Index.ts, SnapshotIndex.ts and QueueEntry.ts: manifests, the local index,
-- the snapshot index and the entries of the event queue. The field `schema_version`, which is
-- always "1.0", is left out.
use obsidian_archivist.Common.{ℕ, Bool, Option, List}
use obsidian_archivist.Common.Text.{Text}

pub data SnapshotType : Type 0 where
  full inc : SnapshotType

unfoldable pub SnapshotType-discrete : Discrete SnapshotType
SnapshotType-discrete = hlevel

pub record FileEntry : Type 0 where
  pub hash : Text
  pub size : ℕ
  pub mtime : ℕ

pub record RenameEntry : Type 0 where
  pub from : Text
  pub to : Text

-- `Record<string, FileEntry>`.
abbrev pub Files : Type 0
Files = List (Text × FileEntry)

pub record SnapshotManifest : Type 0 where
  pub id : Text
  pub kind : SnapshotType
  pub parent_id : Option Text
  pub device_id : Text
  pub created_at : Text
  pub vault_name : Text
  pub vault_prefix : Text
  pub files : Files
  pub deleted : List Text
  pub renames : List RenameEntry
  pub exclusions_applied : Option (List Text)

pub record LocalIndex : Type 0 where
  pub last_full_snapshot_id : Option Text
  pub last_inc_snapshot_id : Option Text
  pub last_full_commit_at : Option Text
  pub last_inc_commit_at : Option Text
  pub last_retention_at : Option Text
  pub index_missing_recovery_required : Bool
  pub files : Files

pub data SnapshotTier : Type 0 where
  never_prune daily monthly : SnapshotTier

pub record SnapshotIndexEntry : Type 0 where
  pub id : Text
  pub kind : SnapshotType
  pub parent_id : Option Text
  pub created_at : Text
  pub device_id : Text
  pub blob_hashes : List Text
  pub tier : Option SnapshotTier

pub record SnapshotIndex : Type 0 where
  pub last_updated_at : Text
  pub snapshots : List SnapshotIndexEntry

pub data ChangeType : Type 0 where
  create modify delete rename : ChangeType

unfoldable pub ChangeType-discrete : Discrete ChangeType
ChangeType-discrete = hlevel

pub record QueueEntry : Type 0 where
  pub id : Text
  pub change : ChangeType
  pub path : Text
  pub prev_path : Option Text
  pub observed_at : Text

-- The event queue as it is saved.
pub record QueueData : Type 0 where
  pub committed_through : Option Text
  pub entries : List QueueEntry
