-- ===== src/Gc/Sweep.antt =====
-- src/services/GCService.ts: the lock, the reference set and the sweep. What the remote answers is
-- given: the lock file, the read of the index, the listing, and which deletes go through.
use obsidian_archivist.Store.Heal.{is_corruption}
use obsidian_archivist.Model.Failure.{path_not_found, Failure, ◌>>=◌, err, ok, Result}
use obsidian_archivist.Model.Manifest.{SnapshotIndex, SnapshotIndexEntry}
use obsidian_archivist.Common.Text.{Text-discrete, Text}
use obsidian_archivist.Common.{
  ◌++◌, ◌==◌, has, ◌&&◌, not, ◌+◌, if◌then◌else◌, ◌*◌, leb, add_all, true, ℕ, false, Bool, Option,
  none, some, List, [], ◌∷◌,
}

-- The lock file: absent, not a lock by its schema, or a lock with its time and device.
pub data LockFile : Type 0 where
  no_lock not_a_lock : LockFile
  lock : Text → Option Text → LockFile

pub data GcState : Type 0 where
  skipped_locked skipped_no_index swept : GcState

-- Of the lock that blocked a sweep the result has the start and the device; its age, the time since
-- that start, is left out.
pub record GcResult : Type 0 where
  pub state : GcState
  pub deleted : List Text
  pub kept_count : ℕ
  pub skipped_age_gate : ℕ
  pub blocking_lock : Option (Text × Option Text)

-- An entry of the listing; `server_modified` may be missing.
pub record Blob : Type 0 where
  pub is_file : Bool
  pub path : Text
  pub server_modified : Option Text

-- `Date.parse`, none for NaN; the clock as a number and as a text; the clock skew; the device.
pub record GcEnv : Type 0 where
  pub parse : Text → Option ℕ
  pub now : ℕ
  pub now_iso : Text
  pub max_clock_skew_minutes : ℕ
  pub device_id : Text
  pub delete_ok : Text → Bool
  pub lock_download_fails : Option Failure
  pub lock_upload_fails : Option Failure
  pub unlock_ok : Bool

abbrev pub lock_threshold_ms : GcEnv → ℕ
lock_threshold_ms env = (60 + env.max_clock_skew_minutes) * 60 * 1000

-- `ageMs <= thresholdMs`, with the age `now - started` that may be negative written as a sum.
abbrev pub is_fresh : GcEnv → ℕ → Bool
is_fresh env started = leb env.now (started + lock_threshold_ms env)

-- `checkExistingLock`: whether the sweep may go on. An unreadable time counts as no lock.
unfoldable pub may_proceed : GcEnv → LockFile → Bool
may_proceed env no_lock = true
may_proceed env not_a_lock = true
may_proceed env (lock started device) = elim (env.parse started) [
  | none ↦ true
  | some t ↦ not (is_fresh env t)
]

-- The part of a path behind its last slash.
after_slash : Text → Text → Text
after_slash [] found = found
after_slash (c ∷ cs) found = after_slash cs (if c == 47 then cs else found)

unfoldable pub hash_of : Text → Text
unfolding after_slash
hash_of path = after_slash path path

-- `buildReferencedSet`.
unfoldable pub referenced_from : List SnapshotIndexEntry → List Text → List Text
referenced_from [] set = set
referenced_from (s ∷ ss) set = referenced_from ss (add_all Text-discrete set s.blob_hashes)

abbrev pub age_gate_ms : GcEnv → ℕ
age_gate_ms env = env.max_clock_skew_minutes * 60 * 1000

-- `Math.abs(modified - started) <= gate`.
abbrev pub is_near : ℕ → ℕ → ℕ → Bool
is_near a b gate = leb a (b + gate) && leb b (a + gate)

abbrev pub is_young : GcEnv → Blob → Bool
is_young env b = elim b.server_modified [
  | none ↦ false
  | some iso ↦ elim (env.parse iso) [ none ↦ false | some t ↦ is_near t env.now (age_gate_ms env) ]
]

-- One turn of the loop over the listing. A blob whose delete fails stays, and is in no count.
unfoldable pub sweep_one : GcEnv → List Text → Blob → GcResult → GcResult
unfolding hash_of
sweep_one env referenced b r =
    if not b.is_file
    then r
    else if is_young env b
    then record r { skipped_age_gate = r.skipped_age_gate + 1 }
    else if has Text-discrete referenced (hash_of b.path)
    then record r { kept_count = r.kept_count + 1 }
    else if env.delete_ok b.path
    then record r { deleted = r.deleted ++ b.path ∷ [] }
    else r

unfoldable pub sweep_all : GcEnv → List Text → List Blob → GcResult → GcResult
sweep_all env referenced [] r = r
sweep_all env referenced (b ∷ bs) r = sweep_all env referenced bs (sweep_one env referenced b r)

abbrev pub nothing : GcState → Option (Text × Option Text) → GcResult
nothing st blocking = record {
  state = st;
  deleted = [];
  kept_count = 0;
  skipped_age_gate = 0;
  blocking_lock = blocking;
}

-- `runSweep`: the index is read first, and the listing after it.
unfoldable pub run_sweep :
    GcEnv → Result (Option SnapshotIndex) → Result (List Blob) → Result GcResult
unfolding sweep_all referenced_from
run_sweep env index listing = elim index [
  | err f ↦ if is_corruption f then ok (nothing skipped_no_index none) else err f
  | ok none ↦ ok (nothing skipped_no_index none)
  | ok (some i) ↦
      listing >>= λ bs. ok (sweep_all env (referenced_from i.snapshots []) bs (nothing swept none))
]

abbrev pub blocking_of : LockFile → Option (Text × Option Text)
blocking_of no_lock = none
blocking_of not_a_lock = none
blocking_of (lock started device) = some (started, device)

abbrev pub own_lock : GcEnv → LockFile
own_lock env = lock env.now_iso (some env.device_id)

-- The part of `sweep` behind the check of the lock: the lock is written, and it is removed in the
-- end also where the sweep fails; where that removal fails it stays.
unfoldable pub sweep_locked :
    GcEnv
    → LockFile
    → Result (Option SnapshotIndex)
    → Result (List Blob)
    → LockFile × Result GcResult
unfolding run_sweep
sweep_locked env file index listing = elim env.lock_upload_fails [
  | some f ↦ (file, err f)
  | none ↦ (if env.unlock_ok then no_lock else own_lock env, run_sweep env index listing)
]

-- `sweep`: the lock file that it leaves, and its result. A lock that cannot be read for another
-- reason than that it is missing fails the sweep.
unfoldable pub sweep :
    GcEnv
    → LockFile
    → Result (Option SnapshotIndex)
    → Result (List Blob)
    → LockFile × Result GcResult
unfolding may_proceed sweep_locked
sweep env file index listing = elim env.lock_download_fails [
  | some path_not_found ↦ sweep_locked env file index listing
  | some f ↦ (file, err f)
  | none ↦
      if may_proceed env file
      then sweep_locked env file index listing
      else (file, ok (nothing skipped_locked (blocking_of file)))
]
