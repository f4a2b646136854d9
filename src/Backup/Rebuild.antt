-- ===== src/Backup/Rebuild.antt =====
-- src/main.ts, the rebuilder that the backups are given: `rebuildSnapshotIndex` of
-- src/services/RepairService.ts on the manifests that the remote has. A manifest is listed and found
-- under the path of the id that it is stored under.
use obsidian_archivist.Paths.Remote.{snapshots_dir, snapshot_path}
use obsidian_archivist.Store.Repair.{RebuildResult, rebuild_snapshot_index}
use obsidian_archivist.Store.Heal.{Hook}
use obsidian_archivist.Store.Index.{Net, IndexFile}
use obsidian_archivist.Model.Failure.{Failure, Result, ok, err, ◌>>=◌}
use obsidian_archivist.Model.Manifest.{SnapshotManifest}
use obsidian_archivist.Common.Text.{Text, same}
use obsidian_archivist.Common.{
  ◌&&◌, not, if◌then◌else◌, false, Bool, Option, none, some, List, [], ◌∷◌,
}

-- How the calls of a rebuild go: the read and the write of the index, the listing of the folder, and
-- which paths fail to download or to pass the schema.
pub record RebuildCalls : Type 0 where
  pub read_net : Net
  pub write_net : Net
  pub list_fails : Option Failure
  pub download_fails : Text → Bool

abbrev pub path_before : Result Text → List Text → List Text
path_before (err f) ps = ps
path_before (ok p) ps = p ∷ ps

abbrev pub manifest_paths : Text → List (Text × SnapshotManifest) → List Text
manifest_paths prefix [] = []
manifest_paths prefix ((id, m) ∷ ms) =
    path_before (snapshot_path prefix id) (manifest_paths prefix ms)

abbrev pub is_at : Result Text → Text → Bool
is_at (err f) p = false
is_at (ok q) p = same q p

abbrev pub manifest_at :
    Text → RebuildCalls → List (Text × SnapshotManifest) → Text → Option SnapshotManifest
manifest_at prefix calls [] p = none
manifest_at prefix calls ((id, m) ∷ ms) p =
    let rest = manifest_at prefix calls ms p in
    if is_at (snapshot_path prefix id) p && not (calls.download_fails p) then some m else rest

abbrev pub listing_of : RebuildCalls → List Text → Result (List Text)
listing_of calls paths = elim calls.list_fails [ none ↦ ok paths | some f ↦ err f ]

-- `.then(() => undefined)`.
abbrev pub forget_report : IndexFile × Result RebuildResult → IndexFile × Result (Unit {0})
forget_report (file, err f) = (file, err f)
forget_report (file, ok r) = (file, ok tt)

unfoldable pub rebuild_hook : Text → RebuildCalls → List (Text × SnapshotManifest) → Hook
rebuild_hook prefix calls ms file = forget_report (
    rebuild_snapshot_index calls.read_net calls.write_net
      (snapshots_dir prefix >>= (λ (dir : Text). listing_of calls (manifest_paths prefix ms)))
      (manifest_at prefix calls ms) file)
