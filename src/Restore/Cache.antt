-- ===== src/Restore/Cache.antt =====
-- src/services/ManifestCache.ts: the cache over the snapshot index and the manifests, one call after
-- another; callers that share a download of the index are left out. What the index and each manifest
-- download as are parameters.
use obsidian_archivist.Paths.Remote.{snapshot_path}
use obsidian_archivist.Model.Failure.{Result, ok, err, manifest_parse_failed, ◌>>=◌}
use obsidian_archivist.Model.Manifest.{SnapshotManifest, SnapshotIndex}
use obsidian_archivist.Common.Text.{Text, Text-discrete}
use obsidian_archivist.Common.{
  get, put, erase, length, ltb, if◌then◌else◌, Option, none, some, List, [], ◌∷◌,
}

-- The manifests are in the order of use, the least recent first.
pub record Cache : Type 0 where
  pub index_cache : Option SnapshotIndex
  pub manifest_by_id : List (Text × SnapshotManifest)

-- The prefix of the vault, what the index and the path of a manifest download as, and whether the
-- manifest passes the schema.
pub record CacheDeps : Type 0 where
  pub vault_prefix : Text
  pub download_index : Result SnapshotIndex
  pub download_manifest : Text → Result (Option SnapshotManifest)

unfoldable pub ensure_index_loaded : CacheDeps → Cache → Cache × Result SnapshotIndex
ensure_index_loaded deps c = elim c.index_cache [
  | some i ↦ (c, ok i)
  | none ↦ elim deps.download_index [
    | err f ↦ (c, err f)
    | ok i ↦ (record c { index_cache = some i }, ok i)
  ]
]

abbrev pub parsed : Option SnapshotManifest → Result SnapshotManifest
parsed none = err manifest_parse_failed
parsed (some m) = ok m

-- The download of a manifest, with no cache.
unfoldable pub fetch_manifest : CacheDeps → Text → Result SnapshotManifest
fetch_manifest deps id = snapshot_path deps.vault_prefix id >>= λ (path : Text).
    deps.download_manifest path >>= λ (raw : Option SnapshotManifest). parsed raw

-- The least recent entry goes where there are more than fifty.
abbrev pub drop_first {ℓ} : {A : Type ℓ} → List A → List A
drop_first [] = []
drop_first (x ∷ xs) = xs

unfoldable pub evict : List (Text × SnapshotManifest) → List (Text × SnapshotManifest)
evict ms = if ltb 50 (length ms) then drop_first ms else ms

unfoldable pub load_manifest : CacheDeps → Text → Cache → Cache × Result SnapshotManifest
load_manifest deps id c = elim (get Text-discrete c.manifest_by_id id) [
  | some m ↦ (
    record c { manifest_by_id = put Text-discrete (erase Text-discrete c.manifest_by_id id) id m },
    ok m,
  )
  | none ↦
      let (loaded, index) = ensure_index_loaded deps c in
      elim index [
        | err f ↦ (loaded, err f)
        | ok i ↦ elim (fetch_manifest deps id) [
          | err f ↦ (loaded, err f)
          | ok m ↦ (
            record loaded { manifest_by_id = evict (put Text-discrete loaded.manifest_by_id id m) },
            ok m,
          )
        ]
      ]
]

abbrev pub invalidate : Cache → Cache
invalidate c = record { index_cache = none; manifest_by_id = [] }
