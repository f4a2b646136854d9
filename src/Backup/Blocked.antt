-- ===== src/Backup/Blocked.antt =====
-- A backup into a folder that belongs to another vault writes nothing; and backups one after another.
use obsidian_archivist.Backup.Uploads.{resolve_parallelism}
use obsidian_archivist.Backup.Consistent.{tip}
use obsidian_archivist.Backup.IncRun.{verify_chain-world}
use obsidian_archivist.Backup.RunKeeps.{assert_vault_ownership-world}
use obsidian_archivist.Devices.Identity.{fresh_folder}
use obsidian_archivist.Backup.Commit.{World}
use obsidian_archivist.Common.Text.{Text}
use obsidian_archivist.Restore.Walk.{Result-cases}
use obsidian_archivist.Model.Manifest.{QueueEntry, LocalIndex}
use obsidian_archivist.Model.Failure.{
  vault_meta_corrupt, vault_id_mismatch, vault_id_needs_adoption, err, ok, Result, Failure,
}
use obsidian_archivist.Backup.Planning.{make_plan, detector_of, chain_is_broken, Plan, verify_chain}
use obsidian_archivist.Devices.Identity.{
  remote_corrupt, mismatch, adopt_remote, check_consistency, consistent, Identity, ConsistencyCheck,
}
use obsidian_archivist.Backup.IncRuns.{
  inc_checked, inc_queued, load_entries, inc_planned, inc_owned, inc_indexed, inc_settings,
  inc_chained, load_index, run_incremental,
}
use obsidian_archivist.Backup.Runs.{paths_of, full_checked, unless_failed, run_full, RunCalls}
use obsidian_archivist.Backup.Session.{
  Ownership, bind_result, lift, Run, judge, assert_vault_ownership, Service, after_check, ◌>>=◌,
}
use obsidian_archivist.Common.{
  true, inr, false, refl, inl, ◌∙◌, arith, ℕ, ◌≡◌, Bool, Option, none, some, List,
}

-- The check finds another vault's folder, or one that it cannot read, and fails the run so.
abbrev pub refusal : ConsistencyCheck → Option Failure
refusal (consistent id m) = none
refusal (fresh_folder id) = none
refusal (adopt_remote m) = some vault_id_needs_adoption
refusal (mismatch id m) = some vault_id_mismatch
refusal (remote_corrupt id) = some vault_meta_corrupt

-- The session has not verified the ownership yet, and its check refuses.
abbrev pub IsRefused : RunCalls → Failure → Service → Type 0
IsRefused calls f s =
    (v : Identity) × (c : ConsistencyCheck) × (s.identity ≡ some v)
    × (s.vault_ownership_verified ≡ none)
    × ((check_consistency calls.identity_calls v).1 ≡ ok c)
    × (refusal c ≡ some f)

judge-refused :
    (c : ConsistencyCheck) (f : Failure) (s : Service) → refusal c ≡ some f → judge c s ≡ (s, err f)
unfolding judge
judge-refused (consistent id m) f s h = absurd (ground arith)
judge-refused (fresh_folder id) f s h = absurd (ground arith)
judge-refused (adopt_remote m) f s h = ground arith
judge-refused (mismatch id m) f s h = ground arith
judge-refused (remote_corrupt id) f s h = ground arith

after_check-refused :
    (s : Service) (r : Identity × Result ConsistencyCheck) (c : ConsistencyCheck) (f : Failure)
    → r.1 ≡ ok c
    → refusal c ≡ some f
    → (after_check s r).1 ≡ err f
unfolding after_check
after_check-refused s (v, err g) c f h k = absurd (ground arith)
after_check-refused s (v, ok d) c f h k =
    ground (arith, judge-refused c f (record s { identity = some v }) k)

assert_vault_ownership-refused :
    (calls : RunCalls) (f : Failure) (s : Service)
    → IsRefused calls f s
    → (assert_vault_ownership calls.identity_calls s).1 ≡ err f
unfolding assert_vault_ownership
assert_vault_ownership-refused calls f s (v, c, i, o, r, k) =
    ground (arith, after_check-refused s (check_consistency calls.identity_calls v) c f r k)

-- The call leaves the stored state as it is wherever the check refuses.
abbrev Frozen : RunCalls → Failure → Run ℕ → Type 0
Frozen calls f m = (s : Service) → IsRefused calls f s → (m s).0.world ≡ s.world

bind_result-err :
    {A : Type 0} {B : Type 0} (r : Service × Result A) (k : A → Run B) (f : Failure)
    → r.1 ≡ err f
    → bind_result r k ≡ (r.0, err f)
bind_result-err (s, ok a) k f h = absurd (ground arith)
bind_result-err (s, err g) k f h = ground arith

-- A full backup into a folder that the check refuses fails as the check says, and leaves the stored
-- state as it is: no blob, manifest, row or HEAD is written, and the queue keeps its events.
pub run_full-refused :
    (calls : RunCalls) (f : Failure) (s : Service)
    → IsRefused calls f s
    → ((run_full calls s).1 ≡ err f) × ((run_full calls s).0.world ≡ s.world)
unfolding run_full
run_full-refused calls f s h =
    let owned = assert_vault_ownership calls.identity_calls s in
    rw (bind_result-err owned (full_checked calls) f (assert_vault_ownership-refused calls f s h))
      (refl, assert_vault_ownership-world calls.identity_calls s)

inc_owned-Frozen :
    (calls : RunCalls) (f : Failure) (size : ℕ) (i : LocalIndex) (es : List QueueEntry)
    (plan : Plan)
    → Frozen calls f (inc_owned calls size i es plan)
inc_owned-Frozen calls f size i es plan s h =
    let owned = assert_vault_ownership calls.identity_calls s in
    rw
      (bind_result-err owned (λ (o : Ownership). inc_checked calls size i es plan) f
        (assert_vault_ownership-refused calls f s h))
      (assert_vault_ownership-world calls.identity_calls s)

lift-Frozen :
    {A : Type 0} (calls : RunCalls) (f : Failure) (r : Result A) (k : A → Run ℕ)
    → ((a : A) → Frozen calls f (k a))
    → Frozen calls f (lift r >>= k)
lift-Frozen calls f (err g) k next s h = refl
lift-Frozen calls f (ok a) k next s h = next a s h

inc_planned-Frozen :
    (calls : RunCalls) (f : Failure) (size : ℕ) (i : LocalIndex) (es : List QueueEntry)
    (plan : Option Plan)
    → Frozen calls f (inc_planned calls size i es plan)
inc_planned-Frozen calls f size i es none s h = refl
inc_planned-Frozen calls f size i es (some plan) s h = inc_owned-Frozen calls f size i es plan s h

inc_chained-Frozen :
    (calls : RunCalls) (f : Failure) (scan : Option (LocalIndex → Result (List Text))) (size : ℕ)
    (i : LocalIndex) (broken : Bool)
    → Frozen calls f (inc_chained calls scan size i broken)
inc_chained-Frozen calls f scan size i true s h = (run_full-refused calls f s h).1
inc_chained-Frozen calls f scan size i false s h =
    lift-Frozen calls f (load_entries calls s) (inc_queued calls scan size i)
      (λ es.
        lift-Frozen calls f (make_plan scan i es (paths_of calls.vault_files))
          (inc_planned calls size i es) (inc_planned-Frozen calls f size i es))
      s h

verify_chain-keeps :
    (prefix : Text) (fails : Option Failure) (i : LocalIndex) (s : Service)
    → let after = (verify_chain prefix fails i s).0 in
      (after.identity ≡ s.identity) × (after.vault_ownership_verified ≡ s.vault_ownership_verified)
unfolding verify_chain
verify_chain-keeps prefix fails i s =
    elim (Result-cases (chain_is_broken prefix fails s.world (tip i))) [
      | inl (b, e) ↦ ground arith
      | inr (g, e) ↦ ground arith
    ]

bind_result-Frozen :
    {A : Type 0} (calls : RunCalls) (f : Failure) (r : Service × Result A) (k : A → Run ℕ)
    (before : World)
    → r.0.world ≡ before
    → IsRefused calls f r.0
    → ((a : A) → Frozen calls f (k a))
    → (bind_result r k).0.world ≡ before
bind_result-Frozen calls f (s, err g) k before w h next = w
bind_result-Frozen calls f (s, ok a) k before w h next = next a s h ∙ w

inc_indexed-Frozen :
    (calls : RunCalls) (f : Failure) (scan : Option (LocalIndex → Result (List Text))) (size : ℕ)
    (loaded : Option LocalIndex)
    → Frozen calls f (inc_indexed calls scan size loaded)
inc_indexed-Frozen calls f scan size none s h = (run_full-refused calls f s h).1
inc_indexed-Frozen calls f scan size (some i) s (v, c, iv, o, r, k) =
    let (same_identity, same_cache) = verify_chain-keeps calls.vault_prefix calls.chain_fails i s in
    bind_result-Frozen calls f (verify_chain calls.vault_prefix calls.chain_fails i s)
      (inc_chained calls scan size i) s.world
      (verify_chain-world calls.vault_prefix calls.chain_fails i s)
      (v, c, same_identity ∙ iv, same_cache ∙ o, r, k) (inc_chained-Frozen calls f scan size i)

-- An incremental backup, and a full one that takes its place, leaves the stored state as it is where
-- the check of the folder's identity refuses.
pub run_incremental-refused :
    (calls : RunCalls) (f : Failure) (s : Service)
    → IsRefused calls f s
    → (run_incremental calls s).0.world ≡ s.world
unfolding run_incremental
run_incremental-refused calls f s h =
    lift-Frozen calls f (unless_failed calls.settings_fail calls.upload_parallelism)
      (inc_settings calls s.first_inc_since_load)
      (λ raw t.
        lift-Frozen calls f (load_index calls t)
          (inc_indexed calls
            (detector_of s.first_inc_since_load calls.reconcile_scan_enabled
              calls.get_changed_paths)
            (resolve_parallelism raw))
          (inc_indexed-Frozen calls f
            (detector_of s.first_inc_since_load calls.reconcile_scan_enabled
              calls.get_changed_paths)
            (resolve_parallelism raw))
          t)
      (record s { first_inc_since_load = false }) h
