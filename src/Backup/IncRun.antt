-- ===== src/Backup/IncRun.antt =====
-- An incremental backup leaves a consistent stored state, whichever call fails.
use obsidian_archivist.Backup.Batching.{resolve_parallelism-positive}
use obsidian_archivist.Backup.FullSteps.{
  verify_first-Untouched, device_id_of-Untouched, verify_first-Sound, device_id_of-Sound,
}
use obsidian_archivist.Backup.IncSteps.{inc_changed-Done, run_full-Done, Done}
use obsidian_archivist.Restore.Walk.{Result-cases}
use obsidian_archivist.Backup.Consistent.{tip}
use obsidian_archivist.Backup.ReadLaws.{
  read_and_hash_files-AreRead, read_and_hash_files-are_read, ok_injective,
}
use obsidian_archivist.Model.Failure.{IfOk-of, IfOk, Failure, ok, Result}
use obsidian_archivist.Backup.Planning.{chain_is_broken, detector_of, verify_chain, make_plan, Plan}
use obsidian_archivist.Backup.IncRuns.{
  load_index, inc_settings, run_incremental, inc_checked, load_entries, inc_changed, existing_paths,
  inc_chained, inc_planned, inc_queued, inc_device, inc_indexed, inc_owned, inc_read,
}
use obsidian_archivist.Backup.Session.{assert_vault_ownership, Ownership, on_world, Service}
use obsidian_archivist.Backup.RunKeeps.{
  assert_vault_ownership-world, quiet-Clean, lift-then-KeepsRun, >>=-KeepsRun, Clean, Sound,
  KeepsRun,
}
use obsidian_archivist.Model.Manifest.{LocalIndex, QueueEntry}
use obsidian_archivist.Common.Text.{Text}
use obsidian_archivist.Backup.Commit.{World}
use obsidian_archivist.Backup.Runs.{unless_failed, paths_of, verify_first, device_id_of, RunCalls}
use obsidian_archivist.Backup.Uploads.{resolve_parallelism, Number, read_and_hash_files}
use obsidian_archivist.Common.{
  refl, arith, sym, inr, false, inl, true, ◌≡◌, ◌≤◌, ℕ, Bool, Option, none, some, List,
}

module _ (calls : RunCalls) (before : World) (size : ℕ) (i : LocalIndex) (positive : 1 ≤ size) where
  inc_read-Done :
      (es : List QueueEntry) (plan : Plan) (device_id : Text)
      → KeepsRun calls.hasher
          (Clean calls.hasher before)
          (inc_read calls size i es plan device_id)
          (Done calls before)
  inc_read-Done es plan device_id =
      let paths = existing_paths calls.vault_files plan.changes_paths in
      lift-then-KeepsRun calls.hasher (Clean calls.hasher before) (Done calls before)
        (read_and_hash_files calls.read calls.hasher size paths)
        (inc_changed calls size i es plan device_id) (λ s c. c.0)
        (λ d e.
          inc_changed-Done calls before size i positive es plan device_id d
            (read_and_hash_files-are_read calls.read calls.hasher size paths d e)
            (read_and_hash_files-AreRead calls.read calls.hasher size paths d e))

  inc_device-Done :
      (es : List QueueEntry) (plan : Plan)
      → KeepsRun calls.hasher
          (Clean calls.hasher before)
          (inc_device calls size i es plan)
          (Done calls before)
  inc_device-Done es plan =
      >>=-KeepsRun calls.hasher (Clean calls.hasher before)
        (λ (id : Text). Clean calls.hasher before) (Done calls before) (device_id_of calls)
        (inc_read calls size i es plan)
        (λ s c.
          let (kept, named) = device_id_of-Sound calls.hasher calls s c.0 in
          (kept, λ a e. (kept, device_id_of-Untouched calls before s c.1)))
        (inc_read-Done es plan)

  inc_owned-Done :
      (es : List QueueEntry) (plan : Plan)
      → KeepsRun calls.hasher
          (Clean calls.hasher before)
          (inc_owned calls size i es plan)
          (Done calls before)
  inc_owned-Done es plan =
      let checked =
        >>=-KeepsRun calls.hasher (Clean calls.hasher before)
          (λ (u : Unit {0}). Clean calls.hasher before) (Done calls before)
          (on_world (verify_first calls)) (λ (u : Unit {0}). inc_device calls size i es plan)
          (λ s c.
            let (kept, named) = verify_first-Sound calls.hasher calls s c.0 in
            (kept, λ a e. (kept, verify_first-Untouched calls before s.world c.1)))
          (λ u. inc_device-Done es plan) in
      >>=-KeepsRun calls.hasher (Clean calls.hasher before)
        (λ (o : Ownership). Clean calls.hasher before) (Done calls before)
        (assert_vault_ownership calls.identity_calls)
        (λ (o : Ownership). inc_checked calls size i es plan)
        (quiet-Clean calls.hasher before (assert_vault_ownership calls.identity_calls)
          (assert_vault_ownership-world calls.identity_calls))
        (λ o. checked)

  inc_planned-Done :
      (es : List QueueEntry) (plan : Option Plan)
      → KeepsRun calls.hasher
          (Clean calls.hasher before)
          (inc_planned calls size i es plan)
          (Done calls before)
  inc_planned-Done es none s c = (c.0, λ n e. (c.0, inr (sym (ok_injective e), c.1)))
  inc_planned-Done es (some plan) s c = inc_owned-Done es plan s c

  inc_queued-Done :
      (scan : Option (LocalIndex → Result (List Text))) (es : List QueueEntry)
      → KeepsRun calls.hasher
          (Clean calls.hasher before)
          (inc_queued calls scan size i es)
          (Done calls before)
  inc_queued-Done scan es =
      lift-then-KeepsRun calls.hasher (Clean calls.hasher before) (Done calls before)
        (make_plan scan i es (paths_of calls.vault_files)) (inc_planned calls size i es)
        (λ s c. c.0) (λ plan e. inc_planned-Done es plan)

  inc_chained-Done :
      (scan : Option (LocalIndex → Result (List Text))) (broken : Bool)
      → KeepsRun calls.hasher
          (Clean calls.hasher before)
          (inc_chained calls scan size i broken)
          (Done calls before)
  inc_chained-Done scan true s c = run_full-Done calls before s c
  inc_chained-Done scan false s c =
      lift-then-KeepsRun calls.hasher (Clean calls.hasher before) (Done calls before)
        (load_entries calls s) (inc_queued calls scan size i) (λ t d. d.0)
        (λ es e. inc_queued-Done scan es) s c

pub verify_chain-world :
    (prefix : Text) (fails : Option Failure) (i : LocalIndex) (s : Service)
    → (verify_chain prefix fails i s).0.world ≡ s.world
unfolding verify_chain
verify_chain-world prefix fails i s =
    elim (Result-cases (chain_is_broken prefix fails s.world (tip i))) [
      | inl (b, e) ↦ ground arith
      | inr (f, e) ↦ ground arith
    ]

module _ (calls : RunCalls) (before : World) where
  inc_indexed-Done :
      (scan : Option (LocalIndex → Result (List Text))) (size : ℕ) (loaded : Option LocalIndex)
      → 1 ≤ size
      → KeepsRun calls.hasher
          (Clean calls.hasher before)
          (inc_indexed calls scan size loaded)
          (Done calls before)
  inc_indexed-Done scan size none positive s c = run_full-Done calls before s c
  inc_indexed-Done scan size (some i) positive s c =
      >>=-KeepsRun calls.hasher (Clean calls.hasher before)
        (λ (b : Bool). Clean calls.hasher before) (Done calls before)
        (verify_chain calls.vault_prefix calls.chain_fails i) (inc_chained calls scan size i)
        (quiet-Clean calls.hasher before (verify_chain calls.vault_prefix calls.chain_fails i)
          (verify_chain-world calls.vault_prefix calls.chain_fails i))
        (inc_chained-Done calls before size i positive scan) s c

  inc_settings-Done :
      (was_first : Bool) (raw : Option Number)
      → KeepsRun calls.hasher
          (Clean calls.hasher before)
          (inc_settings calls was_first raw)
          (Done calls before)
  inc_settings-Done was_first raw s c =
      let scan = detector_of was_first calls.reconcile_scan_enabled calls.get_changed_paths in
      let size = resolve_parallelism raw in
      lift-then-KeepsRun calls.hasher (Clean calls.hasher before) (Done calls before)
        (load_index calls s) (inc_indexed calls scan size) (λ t d. d.0)
        (λ loaded e. inc_indexed-Done scan size loaded (resolve_parallelism-positive raw)) s c

run_incremental-Done :
    (calls : RunCalls) (s : Service)
    → Sound calls.hasher s
    → let (after, result) = run_incremental calls s in
      Sound calls.hasher after × ((n : ℕ) → result ≡ ok n → Done calls s.world n after)
unfolding run_incremental
run_incremental-Done calls s c =
    lift-then-KeepsRun calls.hasher (Clean calls.hasher s.world) (Done calls s.world)
      (unless_failed calls.settings_fail calls.upload_parallelism)
      (inc_settings calls s.first_inc_since_load) (λ t d. d.0)
      (λ raw e. inc_settings-Done calls s.world s.first_inc_since_load raw)
      (record s { first_inc_since_load = false }) (c, (refl, refl, refl, refl, refl))

-- An incremental backup leaves a stored state that is consistent as it was, whichever of its calls
-- fails, those of a rebuild of the index included. Where it returns, either it has committed a manifest with as many
-- files as it says, each with the hash of the bytes that the vault gives for its path, which is stored
-- and listed and named by HEAD and the local index, or it says that it wrote no file, and the remote
-- files and the local index are as they were.
pub run_incremental-commits :
    (calls : RunCalls) (s : Service)
    → Sound calls.hasher s
    → let (after, result) = run_incremental calls s in
      Sound calls.hasher after × IfOk (λ n. Done calls s.world n after) result
run_incremental-commits calls s c =
    let (kept, done) = run_incremental-Done calls s c in
    let (after, result) = run_incremental calls s in
    (kept, IfOk-of (λ (n : ℕ). Done calls s.world n after) result done)
