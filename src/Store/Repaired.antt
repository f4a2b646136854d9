-- ===== src/Store/Repaired.antt =====
-- What a rebuild of the snapshot index leaves, and what it reports.
use mathlib.Core.List.{append-nil, append_assoc}
use obsidian_archivist.Model.Failure.{ok}
use obsidian_archivist.Store.Kept.{is_listed}
use obsidian_archivist.Backup.Batching.{concat-batches}
use obsidian_archivist.Backup.Uploads.{batches}
use obsidian_archivist.Store.Repair.{report_of}
use obsidian_archivist.Common.{ap, ◌∙◌, has-filter, map, ◌&&◌}
use obsidian_archivist.Backup.Batching.{concat}
use obsidian_archivist.Store.Index.{
  rows, IndexFile, Net, rebuild_from_entries, manifest_to_index_entry,
}
use obsidian_archivist.Model.Manifest.{SnapshotIndexEntry, SnapshotManifest}
use obsidian_archivist.Common.Text.{Text-discrete, codes, Text}
use obsidian_archivist.Store.Repair.{
  RebuildResult, ends_with, read_existing_index_ids, download_valid_manifests,
  list_manifest_entries, fetch_batches, rebuild_snapshot_index, fetch_batch,
}
use obsidian_archivist.Common.{
  has, refl, inr, arith, inl, sym, is_some, Option-cases, not, ◌≡◌, ◌++◌, filter, Option, none,
  some, List, [], ◌∷◌,
}

-- The rows of the valid manifests at the paths, in order, and the paths that have none.
abbrev pub valid_rows : (Text → Option SnapshotManifest) → List Text → List SnapshotIndexEntry
valid_rows download [] = []
valid_rows download (p ∷ ps) = elim (download p) [
  | none ↦ valid_rows download ps
  | some m ↦ manifest_to_index_entry m ∷ valid_rows download ps
]

abbrev pub invalid_paths : (Text → Option SnapshotManifest) → List Text → List Text
invalid_paths download ps = filter (λ p. not (is_some (download p))) ps

valid_rows-append :
    (download : Text → Option SnapshotManifest) (ps qs : List Text)
    → valid_rows download (ps ++ qs) ≡ valid_rows download ps ++ valid_rows download qs
valid_rows-append download [] qs = refl
valid_rows-append download (p ∷ ps) qs = elim (Option-cases (download p)) [
  | inl e ↦ ground (arith, valid_rows-append download ps qs)
  | inr (m, e) ↦ ground (arith, valid_rows-append download ps qs)
]

has-ids_is_listed :
    (entries : List SnapshotIndexEntry) (id : Text)
    → has Text-discrete (map (λ (s : SnapshotIndexEntry). s.id) entries) id ≡ is_listed id entries
has-ids_is_listed [] id = refl
has-ids_is_listed (e ∷ es) id = ground (arith, has-ids_is_listed es id)

fetch_batch_lem :
    (download : Text → Option SnapshotManifest) (ps : List Text)
    (found : List SnapshotIndexEntry × List Text)
    → (fetch_batch download ps found).0 ≡ found.0 ++ valid_rows download ps
unfolding fetch_batch
fetch_batch_lem download [] (es, is) = sym (append-nil es)
fetch_batch_lem download (p ∷ ps) (es, is) = elim (Option-cases (download p)) [
  | inl e ↦ ground (arith, fetch_batch_lem download ps (es, is ++ p ∷ []))
  | inr (m, e) ↦
      let row = manifest_to_index_entry m in
      ground (
        arith,
        fetch_batch_lem download ps (es ++ row ∷ [], is),
        append_assoc es (row ∷ []) (valid_rows download ps),
      )
]

fetch_batches_lem :
    (download : Text → Option SnapshotManifest) (bs : List (List Text))
    (found : List SnapshotIndexEntry × List Text)
    → (fetch_batches download bs found).0 ≡ found.0 ++ valid_rows download (concat bs)
unfolding fetch_batches
fetch_batches_lem download [] found = sym (append-nil found.0)
fetch_batches_lem download (b ∷ bs) found = ground (
  arith,
  fetch_batches_lem download bs (fetch_batch download b found),
  fetch_batch_lem download b found,
  append_assoc found.0 (valid_rows download b) (valid_rows download (concat bs)),
  valid_rows-append download b (concat bs),
)

report_of_lem :
    (existing : List Text) (found : List SnapshotIndexEntry × List Text) (id : Text)
    → (has Text-discrete (report_of existing found).kept id
        ≡ (has Text-discrete existing id && is_listed id found.0))
      × (has Text-discrete (report_of existing found).phantoms_removed id
          ≡ (has Text-discrete existing id && not (is_listed id found.0)))
report_of_lem existing (entries, invalid) id =
    let valid = map (λ (s : SnapshotIndexEntry). s.id) entries in
    (
      rw
          (
            has-filter Text-discrete (has Text-discrete valid) existing id,
            has-ids_is_listed entries id,
          )
          (ground arith),
      rw
          (
            has-filter Text-discrete (λ (i : Text). not (has Text-discrete valid i)) existing id,
            has-ids_is_listed entries id,
          )
          (ground arith),
    )

pub download_valid_manifests_lem :
    (download : Text → Option SnapshotManifest) (paths : List Text)
    → (download_valid_manifests download paths).0 ≡ valid_rows download paths
unfolding download_valid_manifests
download_valid_manifests_lem download paths =
    fetch_batches_lem download (batches 8 paths) ([], [])
    ∙ ap (valid_rows download) (concat-batches 8 paths (omega arith))

rebuild_from_entries_lem :
    (net : Net) (entries : List SnapshotIndexEntry) (file : IndexFile)
    → net.upload_fails ≡ none
    → (rows (rebuild_from_entries net entries file).0 ≡ entries)
      × ((rebuild_from_entries net entries file).1 ≡ ok tt)
unfolding rebuild_from_entries
rebuild_from_entries_lem net entries file h = (ground arith, ground arith)

-- A rebuild that goes through leaves an index whose rows are exactly those of the valid manifests
-- that the folder lists, in the order of the listing, whatever the index was before, corrupt
-- included; an id that the index had is reported as kept if such a row has it and as a phantom if
-- none does, and no other id is reported as either.
pub rebuild_snapshot_index_lem :
    (read_net write_net : Net) (paths : List Text) (download : Text → Option SnapshotManifest)
    (file : IndexFile) (existing : List Text)
    → read_existing_index_ids read_net file ≡ ok existing
    → write_net.upload_fails ≡ none
    → let listed = valid_rows download (filter (ends_with (codes ".json")) paths) in
      let (after, result) = rebuild_snapshot_index read_net write_net (ok paths) download file in
      (rows after ≡ listed)
      × ((report : RebuildResult) × (result ≡ ok report)
          × ((id : Text)
              → (has Text-discrete report.kept id
                  ≡ (has Text-discrete existing id && is_listed id listed))
                × (has Text-discrete report.phantoms_removed id
                    ≡ (has Text-discrete existing id && not (is_listed id listed)))))
unfolding rebuild_snapshot_index list_manifest_entries
rebuild_snapshot_index_lem read_net write_net paths download file existing r u =
    let json = filter (ends_with (codes ".json")) paths in
    let found = download_valid_manifests download json in
    let written = rebuild_from_entries_lem write_net found.0 file u in
    let named = download_valid_manifests_lem download json in
    (
      ground arith,
      (
        report_of existing found,
        ground arith,
        λ id. rw (sym named) (report_of_lem existing found id),
      ),
    )
