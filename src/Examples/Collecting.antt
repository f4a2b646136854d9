-- ===== src/Examples/Collecting.antt =====
-- The snapshot index and the garbage collection at concrete inputs.
use obsidian_archivist.Gc.Safety.{run_sweep_deletes, is_garbage}
use obsidian_archivist.Model.Failure.{ok}
use obsidian_archivist.Store.Heal.{Hook}
use obsidian_archivist.Common.Text.{same, Text-discrete, Text}
use obsidian_archivist.Store.Index.{valid, Net}
use obsidian_archivist.Gc.Sweep.{
  hash_of, referenced_from, sweep_one, swept, sweep_all, skipped_locked, lock, run_sweep, LockFile,
  GcEnv, Blob, GcResult,
}
use obsidian_archivist.Common.{
  ◌&&◌, any, refl, true, has, ◌*◌, ◌≡◌, ℕ, Option, none, some, List, [], ◌∷◌,
}
use obsidian_archivist.Model.Manifest.{SnapshotIndexEntry, SnapshotIndex, SnapshotType}

abbrev pub one : ℕ → Text
one c = c ∷ []

abbrev row : Text → SnapshotType → Option Text → List Text → SnapshotIndexEntry
row id kind parent hashes = record {
  id = id;
  kind = kind;
  parent_id = parent;
  created_at = id;
  device_id = one 1;
  blob_hashes = hashes;
  tier = none;
}

-- A full, an incremental on it, and a full that came later.
abbrev row_full : SnapshotIndexEntry
row_full = row (one 50) SnapshotType.full none (one 90 ∷ [])

abbrev row_inc : SnapshotIndexEntry
row_inc = row (one 51) SnapshotType.inc (some (one 50)) (one 91 ∷ [])

abbrev row_late : SnapshotIndexEntry
row_late = row (one 52) SnapshotType.full none (one 90 ∷ [])

abbrev pub the_index : SnapshotIndex
the_index = record { last_updated_at = one 60; snapshots = row_full ∷ row_inc ∷ row_late ∷ [] }

abbrev pub online : Net
online = record { download_fails = none; upload_fails = none; now = one 61 }

abbrev hook : Hook
hook file = (some (valid the_index), ok tt)

-- Instants are written as one code, in minutes.
abbrev pub minutes : Text → Option ℕ
minutes [] = none
minutes (c ∷ cs) = some (c * 60000)

abbrev gc_env : GcEnv
gc_env = record {
  parse = minutes;
  now = 6000000;
  now_iso = one 100;
  max_clock_skew_minutes = 5;
  device_id = one 1;
  delete_ok = λ p. true;
  lock_download_fails = none;
  lock_upload_fails = none;
  unlock_ok = true;
}

abbrev blob : ℕ → ℕ → Blob
blob h minute = record { is_file = true; path = 47 ∷ h ∷ []; server_modified = some (one minute) }

-- A referenced blob, an old orphan and a young orphan.
abbrev blobs : List Blob
blobs = blob 90 10 ∷ blob 95 10 ∷ blob 96 99 ∷ []

abbrev swept_result : GcResult
swept_result = record {
  state = swept;
  deleted = (47 ∷ 95 ∷ []) ∷ [];
  kept_count = 1;
  skipped_age_gate = 1;
  blocking_lock = none;
}

run_sweep_deletes_example :
    (has Text-discrete swept_result.deleted (47 ∷ 96 ∷ [])
      ≡ any
          (λ b.
            is_garbage gc_env the_index.snapshots b
            && gc_env.delete_ok b.path
            && same b.path (47 ∷ 96 ∷ []))
          blobs)
    × (swept_result.state ≡ swept)
unfolding run_sweep sweep_all sweep_one referenced_from hash_of Text-discrete
run_sweep_deletes_example =
    run_sweep_deletes gc_env the_index blobs swept_result (47 ∷ 96 ∷ []) refl

abbrev held_lock : LockFile
held_lock = lock (one 90) (some (one 2))

abbrev blocked_result : GcResult
blocked_result = record swept_result {
  state = skipped_locked;
  deleted = [];
  kept_count = 0;
  skipped_age_gate = 0;
  blocking_lock = some (one 90, some (one 2));
}
