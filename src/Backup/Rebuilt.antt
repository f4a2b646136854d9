-- ===== src/Backup/Rebuilt.antt =====
-- The rebuild on the stored manifests gives rows for stored manifests only.
use obsidian_archivist.Backup.Rebuild.{
  RebuildCalls, rebuild_hook, manifest_at, manifest_paths, listing_of,
}
use obsidian_archivist.Backup.Commit.{World, hook_of}
use obsidian_archivist.Backup.Consistent.{has_manifest, have_manifests, are_keyed}
use obsidian_archivist.Paths.Remote.{snapshots_dir}
use obsidian_archivist.Restore.Walk.{Result-cases}
use obsidian_archivist.Store.Kept.{IsSound}
use obsidian_archivist.Store.Index.{
  rows, IndexFile, Net, rebuild_from_entries, manifest_to_index_entry,
}
use obsidian_archivist.Store.Repair.{
  rebuild_snapshot_index, download_valid_manifests, read_existing_index_ids, list_manifest_entries,
}
use obsidian_archivist.Store.Repaired.{download_valid_manifests_lem, valid_rows}
use obsidian_archivist.Model.Failure.{◌>>=◌, Result}
use obsidian_archivist.Model.Manifest.{SnapshotManifest, SnapshotIndexEntry}
use obsidian_archivist.Common.Text.{Text, Text-discrete}
use obsidian_archivist.Common.{
  refl, arith, inl, inr, eqb_iff, Option-cases, ◌≡◌, true, Option, none, some, List, [], ◌∷◌,
}

-- The manifest at a path is one of those that are stored.
manifest_at-has_manifest :
    (prefix : Text) (calls : RebuildCalls) (ms : List (Text × SnapshotManifest)) (p : Text)
    (m : SnapshotManifest)
    → are_keyed ms ≡ true
    → manifest_at prefix calls ms p ≡ some m
    → has_manifest ms m.id ≡ true
manifest_at-has_manifest prefix calls [] p m k e = absurd (ground arith)
manifest_at-has_manifest prefix calls ((id, n) ∷ ms) p m k e = ground (
  arith,
  manifest_at-has_manifest prefix calls ms p m,
  eqb_iff Text-discrete n.id id,
  eqb_iff Text-discrete id m.id,
)

valid_rows-have_manifests :
    (ms : List (Text × SnapshotManifest)) (download : Text → Option SnapshotManifest)
    (ps : List Text)
    → ((p : Text) (m : SnapshotManifest) → download p ≡ some m → has_manifest ms m.id ≡ true)
    → have_manifests ms (valid_rows download ps) ≡ true
unfolding manifest_to_index_entry
valid_rows-have_manifests ms download [] h = refl
valid_rows-have_manifests ms download (p ∷ ps) h = elim (Option-cases (download p)) [
  | inl e ↦ ground (arith, valid_rows-have_manifests ms download ps h)
  | inr (m, e) ↦ ground (arith, valid_rows-have_manifests ms download ps h, h p m e)
]

rebuild_from_entries-have_manifests :
    (ms : List (Text × SnapshotManifest)) (net : Net) (entries : List SnapshotIndexEntry)
    (file : IndexFile)
    → have_manifests ms entries ≡ true
    → have_manifests ms (rows file) ≡ true
    → have_manifests ms (rows (rebuild_from_entries net entries file).0) ≡ true
unfolding rebuild_from_entries
rebuild_from_entries-have_manifests ms net entries file h k = ground arith

rebuild_snapshot_index-have_manifests :
    (ms : List (Text × SnapshotManifest)) (read_net write_net : Net) (listing : Result (List Text))
    (download : Text → Option SnapshotManifest) (file : IndexFile)
    → ((p : Text) (m : SnapshotManifest) → download p ≡ some m → has_manifest ms m.id ≡ true)
    → have_manifests ms (rows file) ≡ true
    → have_manifests ms (rows (rebuild_snapshot_index read_net write_net listing download file).0)
      ≡ true
unfolding rebuild_snapshot_index
rebuild_snapshot_index-have_manifests ms read_net write_net listing download file h k =
    elim (Result-cases (read_existing_index_ids read_net file)) [
      | inr (f, e) ↦ ground arith
      | inl (existing, e) ↦ elim (Result-cases (list_manifest_entries listing)) [
        | inr (f, g) ↦ ground arith
        | inl (paths, g) ↦
            let found = download_valid_manifests download paths in
            let known : have_manifests ms found.0 ≡ true =
              rw (download_valid_manifests_lem download paths)
                (valid_rows-have_manifests ms download paths h) in
            ground (arith, rebuild_from_entries-have_manifests ms write_net found.0 file known k)
      ]
    ]

rebuild_hook-have_manifests :
    (prefix : Text) (calls : RebuildCalls) (ms : List (Text × SnapshotManifest)) (file : IndexFile)
    → are_keyed ms ≡ true
    → have_manifests ms (rows file) ≡ true
    → have_manifests ms (rows (rebuild_hook prefix calls ms file).0) ≡ true
unfolding rebuild_hook
rebuild_hook-have_manifests prefix calls ms file keyed k =
    let listing =
      snapshots_dir prefix >>= (λ (dir : Text). listing_of calls (manifest_paths prefix ms)) in
    let done =
      rebuild_snapshot_index calls.read_net calls.write_net listing (manifest_at prefix calls ms)
        file in
    let kept =
      rebuild_snapshot_index-have_manifests ms calls.read_net calls.write_net listing
        (manifest_at prefix calls ms) file
        (λ p m. manifest_at-has_manifest prefix calls ms p m keyed) k in
    elim (Result-cases done.1) [ inl (r, e) ↦ ground arith | inr (f, e) ↦ ground arith ]

pub hook_of-IsSound :
    (calls : Option RebuildCalls) (prefix : Text) (w : World)
    → are_keyed w.manifests ≡ true
    → IsSound (λ s. has_manifest w.manifests s.id) (hook_of calls prefix w)
hook_of-IsSound none prefix w keyed = tt
hook_of-IsSound (some calls) prefix w keyed =
    λ file k. rebuild_hook-have_manifests prefix calls w.manifests file keyed k
