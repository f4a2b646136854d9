-- ===== src/Backup/LocalIndex.antt =====
-- src/services/BackupService.ts, `saveLocalIndex`: the local index after a commit.
use obsidian_archivist.Restore.Chain.{is_full_kind}
use obsidian_archivist.Common.Text.{Text-discrete, Text}
use obsidian_archivist.Restore.Replay.{apply_files, apply_deleted}
use obsidian_archivist.Model.Manifest.{RenameEntry, SnapshotManifest, Files, LocalIndex}
use obsidian_archivist.Common.{
  erase, put, is_some, get, if◌then◌else◌, false, Option, none, some, List, [], ◌∷◌,
}

-- `emptyLocalIndex` of src/model/Index.ts, and the base of an incremental with no index.
abbrev pub empty_local_index : LocalIndex
empty_local_index = record {
  last_full_snapshot_id = none;
  last_inc_snapshot_id = none;
  last_full_commit_at = none;
  last_inc_commit_at = none;
  last_retention_at = none;
  index_missing_recovery_required = false;
  files = [];
}

abbrev pub last_retention_of : Option LocalIndex → Option Text
last_retention_of none = none
last_retention_of (some i) = i.last_retention_at

-- One turn of the loop over the renames: the old path goes, and its entry moves to the new path
-- unless the manifest lists that.
unfoldable pub move_entry : Files → Files → RenameEntry → Files
move_entry listed files r =
    let gone = erase Text-discrete files r.from in
    elim (get Text-discrete files r.from) [
      | none ↦ gone
      | some entry ↦
          if is_some (get Text-discrete listed r.to)
          then gone
          else put Text-discrete gone r.to entry
    ]

unfoldable pub move_entries : Files → Files → List RenameEntry → Files
unfolding move_entry
move_entries listed files [] = files
move_entries listed files (r ∷ rs) = move_entries listed (move_entry listed files r) rs

-- The entries of the local index after an incremental: renames, then deletes, then the manifest's
-- own entries.
unfoldable pub files_after : SnapshotManifest → Files → Files
unfolding move_entries apply_deleted apply_files
files_after m files =
    apply_files (apply_deleted (move_entries m.files files m.renames) m.deleted) m.files

abbrev pub base_of : Option LocalIndex → LocalIndex
base_of none = empty_local_index
base_of (some i) = i

index_after_full : Option LocalIndex → SnapshotManifest → Text → LocalIndex
index_after_full existing m committed_at = record {
  last_full_snapshot_id = some m.id;
  last_full_commit_at = some committed_at;
  last_inc_snapshot_id = none;
  last_inc_commit_at = none;
  last_retention_at = last_retention_of existing;
  index_missing_recovery_required = false;
  files = m.files;
}

index_after_inc : Option LocalIndex → SnapshotManifest → Text → LocalIndex
unfolding files_after
index_after_inc existing m committed_at =
    let base = base_of existing in
    record base {
      last_inc_snapshot_id = some m.id;
      last_inc_commit_at = some committed_at;
      index_missing_recovery_required = false;
      files = files_after m base.files;
    }

-- `saveLocalIndex`: what is saved, from what was loaded.
unfoldable pub save_local_index : Option LocalIndex → SnapshotManifest → Text → LocalIndex
unfolding index_after_full index_after_inc
save_local_index existing m committed_at =
    if is_full_kind m.kind
    then index_after_full existing m committed_at
    else index_after_inc existing m committed_at
