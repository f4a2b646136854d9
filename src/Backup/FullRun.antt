-- ===== src/Backup/FullRun.antt =====
-- A full backup leaves a consistent stored state, whichever call fails.
use obsidian_archivist.Backup.Batching.{resolve_parallelism-positive}
use obsidian_archivist.Backup.Stages.{IsReady}
use obsidian_archivist.Backup.FullSteps.{
  upload_step-FilesUploaded, verify_first-Sound, commit-Committed, device_id_of-Sound,
  FilesUploaded, Committed,
}
use obsidian_archivist.Backup.Sync.{commit_full-InSync, InSync}
use obsidian_archivist.Backup.LocalIndex.{save_local_index}
use obsidian_archivist.Restore.Chain.{live}
use obsidian_archivist.Paths.Stamps.{derive_id-is_snapshot_id, live-snapshot_id}
use obsidian_archivist.Model.Failure.{IfOk-of, IfOk, ok}
use obsidian_archivist.Backup.ReadLaws.{
  ok_injective, read_and_hash_files-are_read, build_full_manifest_lem, build_full_manifest-Pictures,
  Pictures, AreRead, read_and_hash_files-AreRead,
}
use obsidian_archivist.Backup.Building.{build_full_manifest}
use obsidian_archivist.Restore.Walk.{Result-cases}
use obsidian_archivist.Backup.UploadLaws.{are_read}
use obsidian_archivist.Backup.Session.{
  claim_if_fresh, assert_vault_ownership, lift, Ownership, on_world, Service,
}
use obsidian_archivist.Backup.RunKeeps.{
  assert_vault_ownership-world, quiet-KeepsRun, lift-KeepsRun, >>=-KeepsRun, claim_if_fresh-world,
  Sound, KeepsRun,
}
use obsidian_archivist.Common.Text.{Text}
use obsidian_archivist.Model.Manifest.{LocalIndex, full, SnapshotManifest}
use obsidian_archivist.Backup.Commit.{commit_snapshot, CommitArgs}
use obsidian_archivist.Backup.Uploads.{
  read_and_hash_files, resolve_parallelism, Number, FileData, Octets,
}
use obsidian_archivist.Backup.Runs.{
  full_checked, full_device, full_settings, unless_failed, commit_args, paths_of, build_input,
  full_read, full_end, full_build, run_full, RunCalls, verify_first, upload_step, device_id_of,
}
use obsidian_archivist.Common.{
  ◌∷◌, sym, inl, arith, inr, length, Option, true, ◌≤◌, ◌≡◌, ℕ, some, [],
}

-- The manifest is committed, and the local index is in sync with its restore.
abbrev pub FullCommitted : (Octets → Text) → SnapshotManifest → Service → Type 0
FullCommitted hasher m s =
    Sound hasher s × Committed m s.world × ((i : LocalIndex) × InSync s.world i (m ∷ []))

commit-FullCommitted :
    (hasher : Octets → Text) (calls : RunCalls) (args : CommitArgs)
    → IsReady hasher args
    → args.manifest.kind ≡ full
    → live (some args.manifest.id) ≡ some args.manifest.id
    → KeepsRun hasher
        (λ s. FilesUploaded hasher args.file_data s)
        (on_world (commit_snapshot args calls.commit))
        (λ a s. FullCommitted hasher args.manifest s)
commit-FullCommitted hasher calls args ready k named s stored =
    let (kept, committed) = commit-Committed hasher calls args ready s stored in
    let i = save_local_index s.world.local_index args.manifest calls.commit.committed_at in
    (
      kept,
      λ a e.
          let (good, done) = committed a e in
          (good, done, (i, commit_full-InSync args calls.commit s.world k named e)),
    )

-- A full backup that returned has committed a full manifest of the files of the vault, says how many
-- files it has, and has put the local index in sync with the restore of that manifest.
abbrev pub FullDone : RunCalls → ℕ → Service → Type 0
FullDone calls n s =
    (m : SnapshotManifest) × (m.kind ≡ full)
    × Pictures calls.vault_files calls.read calls.hasher m.files
    × (n ≡ length m.files)
    × Sound calls.hasher s
    × Committed m s.world
    × ((i : LocalIndex) × InSync s.world i (m ∷ []))

module _ (calls : RunCalls) where
  full_end-FullDone :
      (o : Ownership) (m : SnapshotManifest)
      → m.kind ≡ full
      → Pictures calls.vault_files calls.read calls.hasher m.files
      → KeepsRun calls.hasher
          (λ s. FullCommitted calls.hasher m s)
          (full_end calls o m)
          (FullDone calls)
  full_end-FullDone o m k pictures =
      let good = λ (s : Service). FullCommitted calls.hasher m s in
      >>=-KeepsRun calls.hasher good (λ (u : Unit {0}). good) (FullDone calls)
        (claim_if_fresh calls.claim_calls o) (λ (u : Unit {0}). lift (ok (length m.files)))
        (λ s c. (
          rw (claim_if_fresh-world calls.claim_calls o s) c.0,
          λ a e. rw (claim_if_fresh-world calls.claim_calls o s) c,
        ))
        (λ u s c. (c.0, λ n e. (m, k, pictures, sym (ok_injective e), c.0, c.1, c.2)))

  full_build-FullDone :
      (o : Ownership) (device_id : Text) (size : ℕ) (d : FileData)
      → 1 ≤ size
      → are_read calls.hasher d ≡ true
      → AreRead calls.read calls.hasher d
      → KeepsRun calls.hasher
          (FilesUploaded calls.hasher d)
          (full_build calls o device_id size d)
          (FullDone calls)
  full_build-FullDone o device_id size d positive read good s (c, stored) =
      elim (Result-cases (build_full_manifest calls.vault_files d (build_input calls device_id))) [
        | inr (f, e) ↦ rw e (c, λ n r. absurd (ground arith))
        | inl (m, e) ↦
            let (k, covered, named) =
              build_full_manifest_lem calls.vault_files d (build_input calls device_id) m e in
            let pictures =
              build_full_manifest-Pictures calls.vault_files d (build_input calls device_id) m
                calls.read calls.hasher good e in
            let args = commit_args calls size d m.created_at m in
            rw e (
              >>=-KeepsRun calls.hasher (FilesUploaded calls.hasher d)
                (λ (u : Unit {0}) (t : Service). FullCommitted calls.hasher m t) (FullDone calls)
                (on_world (commit_snapshot args calls.commit))
                (λ (u : Unit {0}). full_end calls o m)
                (commit-FullCommitted calls.hasher calls args
                  (record { positive = positive; read = read; covered = covered }) k
                  (live-snapshot_id m.id
                    (derive_id-is_snapshot_id calls.created_at m.id full named)))
                (λ u. full_end-FullDone o m k pictures) s (c, stored))
      ]

  full_read-FullDone :
      (o : Ownership) (device_id : Text) (raw : Option Number)
      → KeepsRun calls.hasher
          (Sound calls.hasher)
          (full_read calls o device_id raw)
          (FullDone calls)
  full_read-FullDone o device_id raw s c =
      let size = resolve_parallelism raw in
      let positive = resolve_parallelism-positive raw in
      let paths = paths_of calls.vault_files in
      elim (Result-cases (read_and_hash_files calls.read calls.hasher size paths)) [
        | inr (f, e) ↦ rw e (c, λ n r. absurd (ground arith))
        | inl (d, e) ↦
            let read = read_and_hash_files-are_read calls.read calls.hasher size paths d e in
            let good = read_and_hash_files-AreRead calls.read calls.hasher size paths d e in
            rw e (
              >>=-KeepsRun calls.hasher (Sound calls.hasher)
                (λ (u : Unit {0}) (t : Service). FilesUploaded calls.hasher d t) (FullDone calls)
                (on_world (upload_step calls size d))
                (λ (u : Unit {0}). full_build calls o device_id size d)
                (upload_step-FilesUploaded calls.hasher calls size d positive read)
                (λ u. full_build-FullDone o device_id size d positive read good) s c)
      ]

  pub run_full-FullDone :
      KeepsRun calls.hasher (Sound calls.hasher) (run_full calls) (FullDone calls)
  unfolding run_full
  run_full-FullDone =
      let h = calls.hasher in
      let done = FullDone calls in
      let settings = unless_failed calls.settings_fail calls.upload_parallelism in
      let from_settings = λ (o : Ownership) (device_id : Text).
        >>=-KeepsRun h (Sound h)
          (λ (raw : Option Number) (s : Service). Sound h s × (settings ≡ ok raw)) done
          (lift settings) (full_read calls o device_id) (lift-KeepsRun h settings)
          (λ raw s c. full_read-FullDone o device_id raw s c.0) in
      let from_device = λ (o : Ownership).
        >>=-KeepsRun h (Sound h) (λ (id : Text). Sound h) done (device_id_of calls)
          (full_settings calls o) (device_id_of-Sound h calls) (from_settings o) in
      let from_check = λ (o : Ownership).
        >>=-KeepsRun h (Sound h) (λ (u : Unit {0}). Sound h) done (on_world (verify_first calls))
          (λ (u : Unit {0}). full_device calls o) (verify_first-Sound h calls)
          (λ u. from_device o) in
      >>=-KeepsRun h (Sound h) (λ (o : Ownership). Sound h) done
        (assert_vault_ownership calls.identity_calls) (full_checked calls)
        (quiet-KeepsRun h (assert_vault_ownership calls.identity_calls)
          (assert_vault_ownership-world calls.identity_calls))
        from_check

-- A full backup leaves a stored state that is consistent as it was, whichever of its calls fails,
-- those of a rebuild of the index included. Where it returns, it has committed a full manifest with as many files as it
-- says. The manifest has the paths of the vault and no other, each with the hash of the bytes that
-- the vault gives for it; it is stored and listed, HEAD and the local index name it, and a restore of
-- it gives every path the entry that the local index has.
pub run_full-commits :
    (calls : RunCalls) (s : Service)
    → Sound calls.hasher s
    → let (after, result) = run_full calls s in
      Sound calls.hasher after × IfOk (λ n. FullDone calls n after) result
run_full-commits calls s c =
    let (kept, done) = run_full-FullDone calls s c in
    (kept, IfOk-of (λ (n : ℕ). FullDone calls n (run_full calls s).0) (run_full calls s).1 done)
