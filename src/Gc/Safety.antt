-- ===== src/Gc/Safety.antt =====
-- What the sweep may delete.
use obsidian_archivist.Model.Failure.{snapshot_index_invalid, err, Result, ok}
use obsidian_archivist.Common.Text.{same, Text-discrete, Text}
use obsidian_archivist.Model.Manifest.{SnapshotIndex, SnapshotIndexEntry}
use obsidian_archivist.Gc.Sweep.{
  nothing, own_lock, lock_threshold_ms, swept, LockFile, sweep_locked, may_proceed, sweep,
  run_sweep, hash_of, is_young, GcResult, Blob, sweep_one, sweep_all, GcEnv, referenced_from,
}
use obsidian_archivist.Common.{
  ◌≢◌, ◌⊎◌, none, Option, ◌+◌, ◌≤◌, refl, some, false, has-add_all, add_all, has-append, arith,
  ◌||◌, ◌≡◌, not, ◌&&◌, has, any, Bool, List, [], ◌∷◌,
}

abbrev pub references : List SnapshotIndexEntry → Text → Bool
references ss h = any (λ s. has Text-discrete s.blob_hashes h) ss

has-referenced_from :
    (ss : List SnapshotIndexEntry) (set : List Text) (h : Text)
    → has Text-discrete (referenced_from ss set) h ≡ (has Text-discrete set h || references ss h)
unfolding referenced_from
has-referenced_from [] set h = ground arith
has-referenced_from (s ∷ ss) set h = ground (
  arith,
  has-referenced_from ss (add_all Text-discrete set s.blob_hashes) h,
  has-add_all Text-discrete set s.blob_hashes h,
)

-- A blob that the sweep may delete: a file that is not young and that no row references.
abbrev pub is_garbage : GcEnv → List SnapshotIndexEntry → Blob → Bool
is_garbage env ss b = b.is_file && not (is_young env b) && not (references ss (hash_of b.path))

sweep_all_deleted :
    (env : GcEnv) (ss : List SnapshotIndexEntry) (bs : List Blob) (r : GcResult) (p : Text)
    → has Text-discrete (sweep_all env (referenced_from ss []) bs r).deleted p ≡ (
        has Text-discrete r.deleted p
        || any (λ b. is_garbage env ss b && env.delete_ok b.path && same b.path p) bs)
unfolding sweep_all sweep_one
sweep_all_deleted env ss [] r p = ground arith
sweep_all_deleted env ss (b ∷ bs) r p = ground (
  arith,
  sweep_all_deleted env ss bs (sweep_one env (referenced_from ss []) b r) p,
  has-referenced_from ss [] (hash_of b.path),
  has-append Text-discrete r.deleted (b.path ∷ []) p,
)

sweep_all_state :
    (env : GcEnv) (referenced : List Text) (bs : List Blob) (r : GcResult)
    → (sweep_all env referenced bs r).state ≡ r.state
unfolding sweep_all sweep_one
sweep_all_state env referenced [] r = refl
sweep_all_state env referenced (b ∷ bs) r =
    ground (arith, sweep_all_state env referenced bs (sweep_one env referenced b r))

-- A sweep over a readable index deletes exactly the blobs that are files, lie outside the age gate,
-- have a hash that no row references, and whose delete goes through, and it reports a sweep.
pub run_sweep_deletes :
    (env : GcEnv) (i : SnapshotIndex) (bs : List Blob) (r : GcResult) (p : Text)
    → run_sweep env (ok (some i)) (ok bs) ≡ ok r
    → (has Text-discrete r.deleted p
        ≡ any (λ b. is_garbage env i.snapshots b && env.delete_ok b.path && same b.path p) bs)
      × (r.state ≡ swept)
unfolding run_sweep
run_sweep_deletes env i bs r p h =
    let start = nothing swept none in
    ground (
      arith,
      sweep_all_deleted env i.snapshots bs start p,
      sweep_all_state env (referenced_from i.snapshots []) bs start,
    )

-- A sweep that returns while the lock of another is fresh, or where the index is missing or
-- corrupt, has deleted nothing and does not report a sweep.
pub sweep_guarded :
    (env : GcEnv) (file : LockFile) (index : Result (Option SnapshotIndex))
    (listing : Result (List Blob)) (r : GcResult)
    → (sweep env file index listing).1 ≡ ok r
    → ((env.lock_download_fails ≡ none) × (may_proceed env file ≡ false))
      ⊎ ((index ≡ ok none) ⊎ (index ≡ err snapshot_index_invalid))
    → (r.deleted ≡ []) × (r.state ≢ swept)
unfolding sweep sweep_locked run_sweep
sweep_guarded env file index listing r h g = ground arith

-- Two sweeps exclude each other: the lock that a sweep has written blocks every sweep that starts
-- at most an hour and the clock skew after it, if the time in the lock reads as the start of the
-- first.
pub lock_excludes :
    (first second : GcEnv)
    → second.parse first.now_iso ≡ some first.now
    → second.now ≤ first.now + lock_threshold_ms second
    → may_proceed second (own_lock first) ≡ false
unfolding may_proceed
lock_excludes first second p h = ground arith
