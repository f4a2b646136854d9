-- ===== src/Restore/Fetch.antt =====
-- src/services/RestoreService.ts, `fetchContent`: the bytes of a path as of a snapshot. What a
-- content path holds on the remote is a parameter.
use obsidian_archivist.Paths.Remote.{content_path}
use obsidian_archivist.Model.Manifest.{FileEntry, SnapshotManifest, Files}
use obsidian_archivist.Restore.Chain.{materialize_vault_state_at, Loader}
use obsidian_archivist.Common.Text.{Text-discrete, same, Text}
use mathlib.Core.Option
use obsidian_archivist.Model.Failure.{
  content_hash_mismatch, path_not_in_snapshot, ok, err, Result, ◌>>=◌,
}
use obsidian_archivist.Common.{get, if◌then◌else◌, ℕ, Option, none, some, List}

abbrev pub checked_bytes : (List ℕ → Text) → Text → List ℕ → Result (List ℕ)
checked_bytes hasher hash bytes =
    if same (hasher bytes) hash then ok bytes else err content_hash_mismatch

-- The download by the prefix of the snapshot's manifest, and the check of the hash.
unfoldable pub fetch_entry :
    (Text → Result (List ℕ))
    → (List ℕ → Text)
    → Result SnapshotManifest
    → Option FileEntry
    → Result (List ℕ)
fetch_entry download hasher loaded none = err path_not_in_snapshot
fetch_entry download hasher loaded (some entry) = do
  m ← loaded
  path ← content_path m.vault_prefix entry.hash
  bytes ← download path
  checked_bytes hasher entry.hash bytes

unfoldable pub fetch_content :
    ℕ → Loader → (Text → Result (List ℕ)) → (List ℕ → Text) → Text → Text → Option (Result (List ℕ))
fetch_content fuel load download hasher snapshot_id path =
    Option.map
      (λ (r : Result Files). r >>= λ (state : Files).
        fetch_entry download hasher (load snapshot_id) (get Text-discrete state path))
      (materialize_vault_state_at fuel load snapshot_id)
