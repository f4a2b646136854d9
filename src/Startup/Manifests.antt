-- ===== src/Startup/Manifests.antt =====
-- src/services/StartupRecovery.ts: the manifests that a recovery finds, and the newest of them.
use obsidian_archivist.Startup.Report.{Listed, RecoveryEnv}
use obsidian_archivist.Model.Failure.{path_not_found, ok, err, Result}
use obsidian_archivist.Model.Manifest.{SnapshotIndexEntry, SnapshotIndex, SnapshotManifest}
use obsidian_archivist.Common.Text.{codes, same, less, Text}
use obsidian_archivist.Common.{
  filter, any, ◌&&◌, all, ◌||◌, if◌then◌else◌, false, Bool, Option, none, some, List, [], ◌∷◌,
}

-- `path.endsWith('.json')`.
abbrev pub ends_json : Text → Bool
ends_json [] = false
ends_json (c ∷ cs) = same (c ∷ cs) (codes ".json") || ends_json cs

unfoldable pub list_snapshots_dir : RecoveryEnv → Result (List Listed)
list_snapshots_dir env = elim env.listing [
  | err path_not_found ↦ ok []
  | err f ↦ err f
  | ok entries ↦ ok (filter (λ e. e.is_file && ends_json e.path) entries)
]

abbrev pub push : Option SnapshotManifest → List SnapshotManifest → List SnapshotManifest
push none ms = ms
push (some m) ms = m ∷ ms

-- The batches of eight keep the order of the listing.
unfoldable pub download_all_manifests : RecoveryEnv → List Listed → List SnapshotManifest
download_all_manifests env [] = []
download_all_manifests env (e ∷ es) = push (env.download e.path) (download_all_manifests env es)

-- `m.created_at > best.created_at`, or an equal time and a greater id.
abbrev pub is_newer : SnapshotManifest → SnapshotManifest → Bool
is_newer m best =
    less best.created_at m.created_at || (same m.created_at best.created_at && less best.id m.id)

unfoldable pub find_newest : SnapshotManifest → List SnapshotManifest → SnapshotManifest
find_newest best [] = best
find_newest best (m ∷ ms) = find_newest (if is_newer m best then m else best) ms

abbrev pub snapshots_of : Result (Option SnapshotIndex) → List SnapshotIndexEntry
snapshots_of (ok (some i)) = i.snapshots
snapshots_of _ = []

abbrev pub all_indexed : List SnapshotManifest → List SnapshotIndexEntry → Bool
all_indexed ms rows = all (λ m. any (λ s. same s.id m.id) rows) ms
