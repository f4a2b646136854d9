-- ===== src/Backup/Runs.antt =====
-- src/services/BackupService.ts, `runFull` and `runIncremental`.
use obsidian_archivist.Backup.Session.{
  Ownership, claim_if_fresh, lift, on_world, assert_vault_ownership, ◌>>=◌,
}
use obsidian_archivist.Devices.Identity.{IdentityCalls}
use obsidian_archivist.Model.Manifest.{LocalIndex, SnapshotManifest}
use obsidian_archivist.Devices.Coordinator.{
  DeviceCalls, no_options, get_or_create_device_id, verify_no_conflict,
}
use obsidian_archivist.Backup.Uploads.{
  read_and_hash_files, resolve_parallelism, UploadFails, Octets, collect_new_blobs, upload_blobs,
  Number, FileData,
}
use obsidian_archivist.Backup.Building.{build_full_manifest, BuildInput, VaultFile}
use obsidian_archivist.Model.Failure.{err, ok, Result, Failure}
use obsidian_archivist.Common.Text.{Text}
use obsidian_archivist.Backup.Commit.{commit_snapshot, CommitCalls, CommitArgs, Step}
use obsidian_archivist.Backup.Session.{Run}
use obsidian_archivist.Common.{length, map, ℕ, Bool, Option, none, some, List, []}

-- What the calls of a run give: the settings, the files of the vault and their bytes, the outcomes of
-- the identity check, of the claim, of the first conflict check and of the lookup of the device id,
-- the uploads of a full backup, and the calls of the commit. `get_changed_paths` is the change
-- detector's scan, none where there is no detector.
pub record RunCalls : Type 0 where
  pub vault_prefix : Text
  pub vault_name : Text
  pub created_at : Text
  pub exclusions_applied : Option (List Text)
  pub settings_fail : Option Failure
  pub upload_parallelism : Option Number
  pub reconcile_scan_enabled : Bool
  pub load_index_fails : Option Failure
  pub load_queue_fails : Option Failure
  pub chain_fails : Option Failure
  pub get_changed_paths : Option (LocalIndex → Result (List Text))
  pub identity_calls : IdentityCalls
  pub claim_calls : IdentityCalls
  pub first_check : DeviceCalls
  pub first_head_fails : Option Failure
  pub id_calls : DeviceCalls
  pub vault_files : List VaultFile
  pub read : Text → Result Octets
  pub hasher : Octets → Text
  pub full_upload_fails : UploadFails
  pub commit : CommitCalls

abbrev pub build_input : RunCalls → Text → BuildInput
build_input calls device_id = record {
  vault_name = calls.vault_name;
  vault_prefix = calls.vault_prefix;
  device_id = device_id;
  created_at = calls.created_at;
  exclusions_applied = calls.exclusions_applied;
}

abbrev pub unless_failed {ℓ} : {A : Type ℓ} → Option Failure → A → Result A
unless_failed none a = ok a
unless_failed (some f) a = err f

-- `verifyNoConflict` and `getOrCreateDeviceId`.
unfoldable pub verify_first : RunCalls → Step
verify_first calls w =
    let (after, result) =
      verify_no_conflict calls.first_check no_options calls.first_head_fails w.head_file w.device in
    (record w { device = after }, result)

unfoldable pub device_id_of : RunCalls → Run Text
device_id_of calls s =
    let (after, result) = get_or_create_device_id calls.id_calls s.world.device in
    (record s { world = record s.world { device = after } }, result)

-- Step 1 of a full backup.
unfoldable pub upload_step : RunCalls → ℕ → FileData → Step
upload_step calls parallelism data_map w =
    let (after, result) =
      upload_blobs calls.vault_prefix calls.full_upload_fails parallelism
        (collect_new_blobs data_map []) w.blobs in
    (record w { blobs = after }, result)

abbrev pub commit_args : RunCalls → ℕ → FileData → Text → SnapshotManifest → CommitArgs
commit_args calls parallelism data_map cursor m = record {
  vault_prefix = calls.vault_prefix;
  manifest = m;
  file_data = data_map;
  parallelism = parallelism;
  cursor = cursor;
}

abbrev pub paths_of : List VaultFile → List Text
paths_of fs = map (λ (f : VaultFile). f.path) fs

-- `runFull` from its end to its start: the claim and how many files were written, the commit, the
-- upload and the manifest, the reads, the calls before them, and all of it.
abbrev pub full_end : RunCalls → Ownership → SnapshotManifest → Run ℕ
full_end calls ownership m = do
  _ ← claim_if_fresh calls.claim_calls ownership
  lift (ok (length m.files))

abbrev pub full_commit : RunCalls → Ownership → ℕ → FileData → SnapshotManifest → Run ℕ
full_commit calls ownership parallelism data_map m = do
  _ ←
      on_world
        (commit_snapshot (commit_args calls parallelism data_map m.created_at m) calls.commit)
  full_end calls ownership m

abbrev pub full_build : RunCalls → Ownership → Text → ℕ → FileData → Run ℕ
full_build calls ownership device_id parallelism data_map = do
  m ← lift (build_full_manifest calls.vault_files data_map (build_input calls device_id))
  full_commit calls ownership parallelism data_map m

abbrev pub full_upload : RunCalls → Ownership → Text → ℕ → FileData → Run ℕ
full_upload calls ownership device_id parallelism data_map = do
  _ ← on_world (upload_step calls parallelism data_map)
  full_build calls ownership device_id parallelism data_map

abbrev pub full_read : RunCalls → Ownership → Text → Option Number → Run ℕ
full_read calls ownership device_id raw = do
  data_map ← lift (
      read_and_hash_files calls.read calls.hasher (resolve_parallelism raw)
        (paths_of calls.vault_files))
  full_upload calls ownership device_id (resolve_parallelism raw) data_map

abbrev pub full_settings : RunCalls → Ownership → Text → Run ℕ
full_settings calls ownership device_id = do
  raw ← lift (unless_failed calls.settings_fail calls.upload_parallelism)
  full_read calls ownership device_id raw

abbrev pub full_device : RunCalls → Ownership → Run ℕ
full_device calls ownership = do
  device_id ← device_id_of calls
  full_settings calls ownership device_id

abbrev pub full_checked : RunCalls → Ownership → Run ℕ
full_checked calls ownership = do _ ← on_world (verify_first calls); full_device calls ownership

unfoldable pub run_full : RunCalls → Run ℕ
run_full calls = do
  ownership ← assert_vault_ownership calls.identity_calls
  full_checked calls ownership
