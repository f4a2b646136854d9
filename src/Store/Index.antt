-- ===== src/Store/Index.antt =====
-- src/services/SnapshotIndexStore.ts: reading and writing `snapshot_index.json`. The remote file is
-- absent, unreadable or an index; each call gets the outcome of its download and upload.
use obsidian_archivist.Common.Text.{same, Text-discrete, Text}
use obsidian_archivist.Model.Manifest.{Files, SnapshotManifest, SnapshotIndexEntry, SnapshotIndex}
use obsidian_archivist.Model.Failure.{
  snapshot_index_invalid, err, ok, path_not_found, Failure, Result,
}
use obsidian_archivist.Common.{
  ◌==◌, false, length, not, if◌then◌else◌, ◌++◌, true, filter, map, add, Bool, Option, none, some,
  List, [], ◌∷◌,
}

pub data StoredIndex : Type 0 where
  corrupt : StoredIndex
  valid : SnapshotIndex → StoredIndex

abbrev pub IndexFile : Type 0
IndexFile = Option StoredIndex

-- How a download and an upload fail, if they do, and the time at which the call runs.
pub record Net : Type 0 where
  pub download_fails : Option Failure
  pub upload_fails : Option Failure
  pub now : Text

-- A missing file reads as null; every other failure goes on.
abbrev pub missing_as_null : Failure → Result (Option SnapshotIndex)
missing_as_null path_not_found = ok none
missing_as_null f = err f

abbrev pub parsed : IndexFile → Result (Option SnapshotIndex)
parsed none = missing_as_null path_not_found
parsed (some corrupt) = err snapshot_index_invalid
parsed (some (valid i)) = ok (some i)

unfoldable pub read : Net → IndexFile → Result (Option SnapshotIndex)
read net file = elim net.download_fails [ some f ↦ missing_as_null f | none ↦ parsed file ]

-- `uploadJson`: the new file, or the old one and the failure.
abbrev pub upload : Net → SnapshotIndex → IndexFile → IndexFile × Result (Unit {0})
upload net index file = elim net.upload_fails [
  | some f ↦ (file, err f)
  | none ↦ (some (valid index), ok tt)
]

abbrev pub or_empty : Net → Option SnapshotIndex → SnapshotIndex
or_empty net none = record { last_updated_at = net.now; snapshots = [] }
or_empty net (some i) = i

-- The task that `append` puts on the write queue.
unfoldable pub append : Net → SnapshotIndexEntry → IndexFile → IndexFile × Result (Unit {0})
unfolding read
append net entry file = elim (read net file) [
  | err f ↦ (file, err f)
  | ok existing ↦
      let index = or_empty net existing in
      upload net (record { last_updated_at = net.now; snapshots = index.snapshots ++ entry ∷ [] })
        file
]

abbrev pub without : Text → List SnapshotIndexEntry → List SnapshotIndexEntry
without id = filter (λ s. not (same s.id id))

unfoldable pub remove : Net → Text → IndexFile → IndexFile × Result (Unit {0})
unfolding read
remove net id file = elim (read net file) [
  | err f ↦ (file, err f)
  | ok none ↦ (file, ok tt)
  | ok (some index) ↦
      if length (without id index.snapshots) == length index.snapshots
      then (file, ok tt)
      else upload net (record { last_updated_at = net.now; snapshots = without id index.snapshots })
          file
]

-- The task that `rebuildFromEntries` puts on the write queue.
unfoldable pub rebuild_from_entries :
    Net → List SnapshotIndexEntry → IndexFile → IndexFile × Result (Unit {0})
rebuild_from_entries net entries file =
    upload net (record { last_updated_at = net.now; snapshots = entries }) file

unfoldable pub unique_hashes : Files → List Text → List Text
unique_hashes [] seen = seen
unique_hashes ((p, e) ∷ fs) seen = unique_hashes fs (add Text-discrete seen e.hash)

unfoldable pub manifest_to_index_entry : SnapshotManifest → SnapshotIndexEntry
unfolding unique_hashes
manifest_to_index_entry m = record {
  id = m.id;
  kind = m.kind;
  parent_id = m.parent_id;
  created_at = m.created_at;
  device_id = m.device_id;
  blob_hashes = unique_hashes m.files [];
  tier = none;
}

unfoldable pub rebuild : Net → List SnapshotManifest → IndexFile → IndexFile × Result (Unit {0})
unfolding rebuild_from_entries manifest_to_index_entry
rebuild net manifests file = rebuild_from_entries net (map manifest_to_index_entry manifests) file

-- The rows that a reader of the file sees.
abbrev pub rows : IndexFile → List SnapshotIndexEntry
rows none = []
rows (some corrupt) = []
rows (some (valid i)) = i.snapshots

abbrev pub succeeded {ℓ} : {A : Type ℓ} → Result A → Bool
succeeded (ok a) = true
succeeded (err f) = false
