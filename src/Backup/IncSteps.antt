-- ===== src/Backup/IncSteps.antt =====
-- The end of an incremental backup, from what it has read on.
use obsidian_archivist.Backup.FullSteps.{Committed}
use obsidian_archivist.Backup.Stages.{IsReady, local_only}
use obsidian_archivist.Backup.Consistent.{tip}
use obsidian_archivist.Backup.IncFiles.{build_inc_manifest_lem, build_inc_manifest-HaveContent}
use obsidian_archivist.Backup.Protocol.{commit_snapshot-Saved}
use obsidian_archivist.Backup.Buckets.{build_changes}
use obsidian_archivist.Backup.ReadLaws.{HaveContent, AreRead, ok_injective, are_covered}
use obsidian_archivist.Backup.Building.{build_inc_manifest}
use obsidian_archivist.Model.Failure.{ok}
use obsidian_archivist.Backup.UploadLaws.{are_read}
use obsidian_archivist.Backup.Planning.{max_observed, is_nil, Plan}
use obsidian_archivist.Backup.IncRuns.{
  inc_commit, hash_map, inc_changes, skip_window, inc_changed, inc_attach, inc_skip,
}
use obsidian_archivist.Backup.Session.{lift, on_world, Run, Service}
use obsidian_archivist.Backup.RunKeeps.{
  Untouched, lift-then-KeepsRun, >>=-KeepsRun, Clean, Sound, KeepsRun,
}
use obsidian_archivist.Model.Manifest.{inc, SnapshotManifest, LocalIndex, QueueEntry}
use obsidian_archivist.Backup.FullRun.{run_full-FullDone}
use obsidian_archivist.Common.Text.{Text}
use obsidian_archivist.Backup.Commit.{commit_snapshot, World}
use obsidian_archivist.Backup.Runs.{build_input, commit_args, run_full, RunCalls}
use obsidian_archivist.Backup.Uploads.{FileData}
use obsidian_archivist.Common.{
  refl, arith, ◌&&◌, sym, ◌⊎◌, inr, false, inl, if◌then◌else◌, true, length, ◌≡◌, ◌≤◌, ℕ, Bool,
  Option, none, some, List,
}

-- A backup that returned has committed a manifest with as many files as it says, each with the hash
-- of what the vault gives, or has written nothing, remotely or to the local index.
abbrev pub Done : RunCalls → World → ℕ → Service → Type 0
Done calls before n s =
    Sound calls.hasher s
    × (((m : SnapshotManifest) × (n ≡ length m.files)
          × HaveContent calls.read calls.hasher m.files
          × Committed m s.world)
        ⊎ ((n ≡ 0) × Untouched before s.world))

pub run_full-Done :
    (calls : RunCalls) (before : World)
    → KeepsRun calls.hasher (Clean calls.hasher before) (run_full calls) (Done calls before)
run_full-Done calls before s (c, same_world) =
    let (kept, done) = run_full-FullDone calls s c in
    (
      kept,
      λ n e.
          let (m, k, pictures, count, sound_after, committed, synced) = done n e in
          (sound_after, inl (m, count, (λ p e g. (pictures p).1 e g), committed)),
    )

inc_commit-Done :
    (calls : RunCalls) (before : World) (size : ℕ) (d : FileData) (es : List QueueEntry)
    (m : SnapshotManifest)
    → 1 ≤ size
    → are_read calls.hasher d ≡ true
    → m.kind ≡ inc
    → are_covered d m.files ≡ true
    → HaveContent calls.read calls.hasher m.files
    → KeepsRun calls.hasher
        (Clean calls.hasher before)
        (inc_commit calls size d es m)
        (Done calls before)
inc_commit-Done calls before size d es m positive read k covered content =
    let args = commit_args calls size d (max_observed es calls.created_at) m in
    let ready : IsReady calls.hasher args = record {
      positive = positive;
      read = read;
      covered = covered;
    } in
    >>=-KeepsRun calls.hasher (Clean calls.hasher before)
      (λ (u : Unit {0}) (s : Service). Sound calls.hasher s × Committed m s.world)
      (Done calls before) (on_world (commit_snapshot args calls.commit))
      (λ (u : Unit {0}). lift (ok (length m.files)))
      (λ s c.
        let (kept, saved) =
          commit_snapshot-Saved calls.hasher args calls.commit ready s.world
            (c.0, λ f. absurd (ground arith)) in
        (
          kept,
          λ a e.
              let (sound_after, there, listed, headed, tipped) = saved e in
              (sound_after, (there, listed, rw headed refl, tipped)),
        ))
      (λ u s c. (c.0, λ n e. (c.0, inl (m, sym (ok_injective e), content, c.1))))

inc_skip-Done :
    (calls : RunCalls) (before : World) (es : List QueueEntry)
    → KeepsRun calls.hasher (Clean calls.hasher before) (inc_skip calls es) (Done calls before)
inc_skip-Done calls before es =
    >>=-KeepsRun calls.hasher (Clean calls.hasher before)
      (λ (u : Unit {0}). Clean calls.hasher before) (Done calls before)
      (on_world (skip_window calls es)) (λ (u : Unit {0}). lift (ok 0))
      (λ s c.
        let kept =
          local_only calls.hasher s.world s.world.device (skip_window calls es s.world).0.queue
            c.0 in
        (kept, λ a e. (kept, c.1)))
      (λ u s c. (c.0, λ n e. (c.0, inr (sym (ok_injective e), c.1))))

module _ (calls : RunCalls) (before : World) (size : ℕ) (i : LocalIndex) (positive : 1 ≤ size) where
  inc_attach-Done :
      (d : FileData) (es : List QueueEntry) (plan : Plan) (changes : List Text) (device_id : Text)
      (parent : Option Text)
      → are_read calls.hasher d ≡ true
      → AreRead calls.read calls.hasher d
      → KeepsRun calls.hasher
          (Clean calls.hasher before)
          (inc_attach calls size d es plan changes device_id parent)
          (Done calls before)
  inc_attach-Done d es plan changes device_id none read good = run_full-Done calls before
  inc_attach-Done d es plan changes device_id (some parent) read good =
      let built =
        build_inc_manifest parent (inc_changes calls.vault_files d changes) plan.deleted
          plan.renames (build_input calls device_id) in
      lift-then-KeepsRun calls.hasher (Clean calls.hasher before) (Done calls before) built
        (inc_commit calls size d es) (λ s c. c.0)
        (λ m e.
          let (k, attached, covered, named) =
            build_inc_manifest_lem parent calls.vault_files d changes plan.deleted plan.renames
              (build_input calls device_id) m e in
          inc_commit-Done calls before size d es m positive read k covered (
            build_inc_manifest-HaveContent parent calls.vault_files d changes plan.deleted
              plan.renames (build_input calls device_id) m calls.read calls.hasher good e))

  if_else-KeepsRun :
      (b : Bool) (m k : Run ℕ)
      → KeepsRun calls.hasher (Clean calls.hasher before) m (Done calls before)
      → KeepsRun calls.hasher (Clean calls.hasher before) k (Done calls before)
      → KeepsRun calls.hasher (Clean calls.hasher before) (if b then m else k) (Done calls before)
  if_else-KeepsRun true m k h j = h
  if_else-KeepsRun false m k h j = j

  pub inc_changed-Done :
      (es : List QueueEntry) (plan : Plan) (device_id : Text) (d : FileData)
      → are_read calls.hasher d ≡ true
      → AreRead calls.read calls.hasher d
      → KeepsRun calls.hasher
          (Clean calls.hasher before)
          (inc_changed calls size i es plan device_id d)
          (Done calls before)
  inc_changed-Done es plan device_id d read good =
      let changes = build_changes (hash_map d) plan.changes_paths i in
      if_else-KeepsRun (is_nil changes && is_nil plan.deleted && is_nil plan.renames)
        (inc_skip calls es) (inc_attach calls size d es plan changes device_id (tip i))
        (inc_skip-Done calls before es)
        (inc_attach-Done d es plan changes device_id (tip i) read good)
