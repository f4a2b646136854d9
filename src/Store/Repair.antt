-- ===== src/Store/Repair.antt =====
-- src/services/RepairService.ts: the rebuild of the snapshot index from the listed manifests, and the
-- forced removal of the lock of the garbage collection. What the folder lists and what each path
-- downloads as are parameters; a file that fails to download or to pass the schema downloads as none.
use obsidian_archivist.Devices.Coordinator.{is_missing}
use obsidian_archivist.Backup.Uploads.{batches}
use obsidian_archivist.Common.Text.{codes, Text-discrete, same, Text}
use obsidian_archivist.Model.Failure.{
  path_not_found, snapshot_index_invalid, err, ok, Failure, Result,
}
use obsidian_archivist.Store.Index.{
  manifest_to_index_entry, rebuild_from_entries, read, Net, IndexFile,
}
use obsidian_archivist.Model.Manifest.{SnapshotManifest, SnapshotIndexEntry, SnapshotIndex}
use obsidian_archivist.Common.{
  false, has, if◌then◌else◌, not, true, ◌||◌, ◌++◌, filter, map, add_all, Bool, Option, none, some,
  List, [], ◌∷◌,
}

pub record RebuildResult : Type 0 where
  pub phantoms_removed : List Text
  pub kept : List Text
  pub invalid_manifests : List Text

abbrev pub ids_of : Option SnapshotIndex → List Text
ids_of none = []
ids_of (some i) = add_all Text-discrete [] (map (λ (s : SnapshotIndexEntry). s.id) i.snapshots)

-- `readExistingIndexIds`: a corrupt index has no ids.
abbrev pub no_ids_if_corrupt : Failure → Result (List Text)
no_ids_if_corrupt snapshot_index_invalid = ok []
no_ids_if_corrupt f = err f

unfoldable pub read_existing_index_ids : Net → IndexFile → Result (List Text)
read_existing_index_ids net file = elim (read net file) [
  | err f ↦ no_ids_if_corrupt f
  | ok i ↦ ok (ids_of i)
]

-- `endsWith('.json')`.
abbrev pub ends_with : Text → Text → Bool
ends_with suffix [] = same [] suffix
ends_with suffix (c ∷ t) = same (c ∷ t) suffix || ends_with suffix t

abbrev pub none_if_missing : Failure → Result (List Text)
none_if_missing path_not_found = ok []
none_if_missing f = err f

-- `listManifestEntries`, on the paths of the folder.
unfoldable pub list_manifest_entries : Result (List Text) → Result (List Text)
list_manifest_entries (err f) = none_if_missing f
list_manifest_entries (ok all_paths) = ok (filter (ends_with (codes ".json")) all_paths)

-- One batch of `downloadValidManifests`: the rows of the valid manifests, and the other paths.
unfoldable pub fetch_batch :
    (Text → Option SnapshotManifest)
    → List Text
    → List SnapshotIndexEntry × List Text
    → List SnapshotIndexEntry × List Text
fetch_batch download [] found = found
fetch_batch download (p ∷ ps) (entries, invalid) = elim (download p) [
  | none ↦ fetch_batch download ps (entries, invalid ++ p ∷ [])
  | some m ↦ fetch_batch download ps (entries ++ manifest_to_index_entry m ∷ [], invalid)
]

unfoldable pub fetch_batches :
    (Text → Option SnapshotManifest)
    → List (List Text)
    → List SnapshotIndexEntry × List Text
    → List SnapshotIndexEntry × List Text
fetch_batches download [] found = found
fetch_batches download (b ∷ bs) found = fetch_batches download bs (fetch_batch download b found)

-- `downloadValidManifests`, eight at a time.
unfoldable pub download_valid_manifests :
    (Text → Option SnapshotManifest) → List Text → List SnapshotIndexEntry × List Text
download_valid_manifests download paths = fetch_batches download (batches 8 paths) ([], [])

-- What the rebuild reports.
abbrev pub report_of : List Text → List SnapshotIndexEntry × List Text → RebuildResult
report_of existing (entries, invalid) =
    let valid = map (λ (s : SnapshotIndexEntry). s.id) entries in
    record {
      phantoms_removed = filter (λ id. not (has Text-discrete valid id)) existing;
      kept = filter (has Text-discrete valid) existing;
      invalid_manifests = invalid;
    }

abbrev pub with_report :
    RebuildResult → IndexFile × Result (Unit {0}) → IndexFile × Result RebuildResult
with_report report (file, err f) = (file, err f)
with_report report (file, ok u) = (file, ok report)

-- `rebuildSnapshotIndex`, with the outcomes of the network at its read and at its write.
unfoldable pub rebuild_snapshot_index :
    Net
    → Net
    → Result (List Text)
    → (Text → Option SnapshotManifest)
    → IndexFile
    → IndexFile × Result RebuildResult
rebuild_snapshot_index read_net write_net listing download file =
    elim (read_existing_index_ids read_net file) [
      | err f ↦ (file, err f)
      | ok existing ↦ elim (list_manifest_entries listing) [
        | err f ↦ (file, err f)
        | ok paths ↦
            let found = download_valid_manifests download paths in
            with_report (report_of existing found) (rebuild_from_entries write_net found.0 file)
      ]
    ]

-- `clearGcLock`, by how the deletion fails, if it does.
unfoldable pub clear_gc_lock : Option Failure → Result Bool
clear_gc_lock none = ok true
clear_gc_lock (some f) = if is_missing f then ok false else err f
