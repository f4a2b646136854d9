-- ===== src/Backup/FullSteps.antt =====
-- The calls of a full backup, one by one.
use obsidian_archivist.Backup.Stages.{collected_blobs, local_only, IsReady}
use obsidian_archivist.Store.Index.{rows}
use obsidian_archivist.Backup.UploadLaws.{
  collect_new_blobs-are_hashed, upload_blobs_lem, are_stored, are_read,
}
use obsidian_archivist.Backup.Protocol.{commit_snapshot-Saved}
use obsidian_archivist.Backup.Consistent.{blobs-IsConsistent, index_tip, head_id}
use obsidian_archivist.Backup.Session.{on_world, Service}
use obsidian_archivist.Backup.RunKeeps.{Untouched, Sound, KeepsRun}
use obsidian_archivist.Store.Kept.{is_listed}
use obsidian_archivist.Common.Text.{Text-discrete, Text}
use obsidian_archivist.Model.Manifest.{SnapshotManifest}
use obsidian_archivist.Backup.Commit.{commit_snapshot, CommitArgs, World}
use obsidian_archivist.Backup.Uploads.{upload_blobs, collect_new_blobs, FileData, Octets}
use obsidian_archivist.Backup.Runs.{RunCalls, verify_first, upload_step, device_id_of}
use obsidian_archivist.Common.{refl, true, ◌≤◌, ◌≡◌, ℕ, get, some, []}

-- A manifest was committed: it is stored and listed, HEAD names it, and the local index is in sync
-- with the state that its restore gives.
abbrev pub Committed : SnapshotManifest → World → Type 0
Committed m w =
    (get Text-discrete w.manifests m.id ≡ some m)
    × (is_listed m.id (rows w.index_file) ≡ true)
    × (head_id w.head_file ≡ some m.id)
    × (index_tip w.local_index ≡ some m.id)

pub device_id_of-Sound :
    (hasher : Octets → Text) (calls : RunCalls)
    → KeepsRun hasher (Sound hasher) (device_id_of calls) (λ a s. Sound hasher s)
unfolding device_id_of
device_id_of-Sound hasher calls s c =
    let kept = local_only hasher s.world (device_id_of calls s).0.world.device s.world.queue c in
    (kept, λ a e. kept)

pub verify_first-Sound :
    (hasher : Octets → Text) (calls : RunCalls)
    → KeepsRun hasher (Sound hasher) (on_world (verify_first calls)) (λ a s. Sound hasher s)
unfolding verify_first
verify_first-Sound hasher calls s c =
    let kept = local_only hasher s.world (verify_first calls s.world).0.device s.world.queue c in
    (kept, λ a e. kept)

pub device_id_of-Untouched :
    (calls : RunCalls) (before : World) (s : Service)
    → Untouched before s.world
    → Untouched before (device_id_of calls s).0.world
unfolding device_id_of
device_id_of-Untouched calls before s u = u

pub verify_first-Untouched :
    (calls : RunCalls) (before w : World)
    → Untouched before w
    → Untouched before (verify_first calls w).0
unfolding verify_first
verify_first-Untouched calls before w u = u

-- Every file that was read has its blob.
abbrev pub FilesUploaded : (Octets → Text) → FileData → Service → Type 0
FilesUploaded hasher d s =
    Sound hasher s × (are_stored s.world.blobs (collect_new_blobs d []) ≡ true)

pub upload_step-FilesUploaded :
    (hasher : Octets → Text) (calls : RunCalls) (size : ℕ) (d : FileData)
    → 1 ≤ size
    → are_read hasher d ≡ true
    → KeepsRun hasher
        (Sound hasher)
        (on_world (upload_step calls size d))
        (λ a s. FilesUploaded hasher d s)
unfolding upload_step
upload_step-FilesUploaded hasher calls size d positive read s c =
    let es = collect_new_blobs d [] in
    let (mono, stored, named) =
      upload_blobs_lem hasher calls.vault_prefix calls.full_upload_fails size es s.world.blobs
        positive (collect_new_blobs-are_hashed hasher d [] read) c.hashed in
    let after = (upload_blobs calls.vault_prefix calls.full_upload_fails size es s.world.blobs).0 in
    let kept = blobs-IsConsistent hasher s.world after mono named c in
    (kept, λ a e. (kept, stored e))

pub commit-Committed :
    (hasher : Octets → Text) (calls : RunCalls) (args : CommitArgs)
    → IsReady hasher args
    → KeepsRun hasher
        (λ s. FilesUploaded hasher args.file_data s)
        (on_world (commit_snapshot args calls.commit))
        (λ a s. Sound hasher s × Committed args.manifest s.world)
commit-Committed hasher calls args ready s (c, stored) =
    let have =
      collected_blobs s.world.blobs args.file_data args.manifest.files stored ready.covered in
    let (kept, saved) =
      commit_snapshot-Saved hasher args calls.commit ready s.world (c, λ k. have) in
    (
      kept,
      λ a e.
          let (sound, there, listed, headed, tipped) = saved e in
          (sound, (there, listed, rw headed refl, tipped)),
    )
