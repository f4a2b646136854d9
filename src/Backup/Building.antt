-- ===== src/Backup/Building.antt =====
-- src/services/ManifestBuilder.ts: the manifests of full and incremental snapshots.
use obsidian_archivist.Paths.Stamps.{derive_id}
use obsidian_archivist.Model.Failure.{◌>>=◌}
use obsidian_archivist.Model.Manifest.{inc, full, SnapshotManifest, RenameEntry, Files}
use obsidian_archivist.Model.Failure.{unknown, ok, err, Result}
use obsidian_archivist.Common.Text.{Text-discrete, Text}
use obsidian_archivist.Backup.Uploads.{FileData}
use obsidian_archivist.Common.{get, put, ℕ, Option, none, some, List, [], ◌∷◌}

pub record VaultFile : Type 0 where
  pub path : Text
  pub mtime : ℕ
  pub size : ℕ

-- What both inputs share.
pub record BuildInput : Type 0 where
  pub vault_name : Text
  pub vault_prefix : Text
  pub device_id : Text
  pub created_at : Text
  pub exclusions_applied : Option (List Text)

-- `Error`s that the source throws are the failure `unknown`.
abbrev or_unknown {ℓ} : {A : Type ℓ} → Option A → Result A
or_unknown none = err unknown
or_unknown (some a) = ok a

-- The loop over the files of the vault: a file without a hash ends it.
unfoldable pub full_files : List VaultFile → FileData → Files → Result Files
full_files [] hashes files = ok files
full_files (f ∷ fs) hashes files = elim (get Text-discrete hashes f.path) [
  | none ↦ err unknown
  | some r ↦
      full_files fs hashes
        (put Text-discrete files f.path (record { hash = r.hash; size = f.size; mtime = f.mtime }))
]

unfoldable pub build_full_manifest :
    List VaultFile → FileData → BuildInput → Result SnapshotManifest
build_full_manifest vault_files hashes input = do
  files ← full_files vault_files hashes []
  id ← or_unknown (derive_id input.created_at full)
  ok (record {
    id = id;
    kind = full;
    parent_id = none;
    device_id = input.device_id;
    created_at = input.created_at;
    vault_name = input.vault_name;
    vault_prefix = input.vault_prefix;
    files = files;
    deleted = [];
    renames = [];
    exclusions_applied = input.exclusions_applied;
  })

pub record IncChange : Type 0 where
  pub path : Text
  pub hash : Text
  pub size : ℕ
  pub mtime : ℕ

unfoldable pub inc_files : List IncChange → Files → Files
inc_files [] files = files
inc_files (c ∷ cs) files =
    inc_files cs
      (put Text-discrete files c.path (record { hash = c.hash; size = c.size; mtime = c.mtime }))

unfoldable pub build_inc_manifest :
    Text → List IncChange → List Text → List RenameEntry → BuildInput → Result SnapshotManifest
build_inc_manifest parent changes deleted renames input = do
  id ← or_unknown (derive_id input.created_at inc)
  ok (record {
    id = id;
    kind = inc;
    parent_id = some parent;
    device_id = input.device_id;
    created_at = input.created_at;
    vault_name = input.vault_name;
    vault_prefix = input.vault_prefix;
    files = inc_files changes [];
    deleted = deleted;
    renames = renames;
    exclusions_applied = input.exclusions_applied;
  })
