-- ===== src/Examples/Rebuilding.antt =====
-- A restore after a backup and a rebuild of the snapshot index at concrete inputs.
use obsidian_archivist.Restore.Cache.{CacheDeps, load_manifest, fetch_manifest}
use obsidian_archivist.Restore.Cached.{
  CacheCall, load_call, index_call, cache_calls, load_manifest-eq-fetch_manifest,
}
use obsidian_archivist.Common.{length, ◌≤◌}
use obsidian_archivist.Backup.Restorable.{fetch_content-restores}
use obsidian_archivist.Restore.Fetch.{fetch_content}
use obsidian_archivist.Restore.Replay.{materialize}
use obsidian_archivist.Paths.Remote.{content_path, is_vault_prefix}
use obsidian_archivist.Backup.Uploads.{Octets}
use obsidian_archivist.Backup.Commit.{World}
use obsidian_archivist.Backup.Sync.{loader_of, InSync}
use obsidian_archivist.Backup.Consistent.{IsConsistent}
use obsidian_archivist.Examples.Backups.{hasher}
use obsidian_archivist.Common.{◌++◌, inl, arith}
use obsidian_archivist.Store.Repaired.{rebuild_snapshot_index_lem, valid_rows}
use obsidian_archivist.Store.Repair.{RebuildResult, rebuild_snapshot_index, read_existing_index_ids}
use obsidian_archivist.Store.Kept.{is_listed}
use obsidian_archivist.Store.Index.{manifest_to_index_entry, valid, rows, IndexFile, read}
use obsidian_archivist.Examples.Collecting.{online, the_index, one}
use obsidian_archivist.Examples.Commits.{first_full, after_full, index_of, entry_at}
use obsidian_archivist.Model.Failure.{ok}
use obsidian_archivist.Model.Manifest.{SnapshotManifest}
use obsidian_archivist.Common.Text.{codes, same, Text, Text-discrete}
use obsidian_archivist.Common.{
  refl, has, not, ◌&&◌, ◌≡◌, if◌then◌else◌, Option, none, some, List, [], ◌∷◌,
}

-- The same with the blob of its files.
abbrev pub restorable : World
restorable = record after_full { blobs = (hasher [], []) ∷ [] }

restorable-InSync : InSync restorable index_of (first_full ∷ [])
unfolding materialize Text-discrete
restorable-InSync = record {
  saved = refl;
  linked = (first_full.id, refl, refl, inl (refl, refl));
  agrees = λ p. refl;
}

pub restorable-IsConsistent : IsConsistent hasher restorable
unfolding Text-discrete
restorable-IsConsistent = record {
  hashed = λ h b g. ground arith;
  backed = λ id m g. ground arith;
  keyed = refl;
  listed = refl;
  headed = refl;
  indexed = refl;
}

abbrev content_of : Text
content_of = codes "notes/content/00/" ++ hasher []

fetch_content-restores_example :
    (b : Octets) × (fetch_content 1
        (loader_of restorable.manifests)
        (λ p. ok [])
        hasher
        first_full.id
        (codes "a.md")
      ≡ some (ok b))
    × (hasher b ≡ hasher [])
unfolding content_path is_vault_prefix Text-discrete
fetch_content-restores_example =
    fetch_content-restores (λ p. ok []) hasher restorable index_of first_full [] first_full.id
      (codes "a.md") content_of (entry_at 1) restorable-IsConsistent restorable-InSync refl refl
      refl refl

-- An index of one listed snapshot and three phantoms, and a folder with its manifest, a corrupt file
-- and a path that is no json file.
abbrev stale : IndexFile
stale = some (
    valid (record {
      last_updated_at = [];
      snapshots = manifest_to_index_entry first_full ∷ the_index.snapshots;
    }))

abbrev stale_ids : List Text
stale_ids = first_full.id ∷ one 50 ∷ one 51 ∷ one 52 ∷ []

abbrev paths_of : List Text
paths_of = codes "a.json" ∷ codes "b.json" ∷ codes "c.txt" ∷ []

abbrev manifest_at : Text → Option SnapshotManifest
manifest_at p = if same p (codes "a.json") then some first_full else none

rebuild_snapshot_index_lem_example :
    let listed = valid_rows manifest_at (codes "a.json" ∷ codes "b.json" ∷ []) in
    let (after, result) = rebuild_snapshot_index online online (ok paths_of) manifest_at stale in
    (rows after ≡ listed)
    × ((report : RebuildResult) × (result ≡ ok report)
        × ((id : Text)
            → (has Text-discrete report.kept id
                ≡ (has Text-discrete stale_ids id && is_listed id listed))
              × (has Text-discrete report.phantoms_removed id
                  ≡ (has Text-discrete stale_ids id && not (is_listed id listed)))))
unfolding read_existing_index_ids read manifest_to_index_entry Text-discrete
rebuild_snapshot_index_lem_example =
    rebuild_snapshot_index_lem online online paths_of manifest_at stale stale_ids refl refl

abbrev cache_deps : CacheDeps
cache_deps = record {
  vault_prefix = codes "notes";
  download_index = ok the_index;
  download_manifest = λ path. ok (some first_full);
}

abbrev cache_history : List CacheCall
cache_history = load_call first_full.id ∷ index_call ∷ load_call first_full.id ∷ []

load_manifest-eq-fetch_manifest_example :
    let c =
      cache_calls cache_deps cache_history (record { index_cache = none; manifest_by_id = [] }) in
    (length c.manifest_by_id ≤ 50)
    × ((load_manifest cache_deps first_full.id c).1 ≡ fetch_manifest cache_deps first_full.id)
load_manifest-eq-fetch_manifest_example =
    load_manifest-eq-fetch_manifest cache_deps cache_history first_full.id the_index refl
