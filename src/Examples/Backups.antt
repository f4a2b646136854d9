-- ===== src/Examples/Backups.antt =====
-- Commits and backups at concrete inputs.
use obsidian_archivist.Store.Heal.{append_with_self_heal}
use obsidian_archivist.Paths.Stamps.{read_snapshot_id, take_digits, group, read_stamp, derive_id}
use obsidian_archivist.Backup.Building.{full_files, build_full_manifest}
use obsidian_archivist.Paths.Remote.{head_path, snapshot_path, is_vault_prefix, content_path}
use obsidian_archivist.Events.Queue.{commit_window, empty_queue}
use obsidian_archivist.Backup.FullRun.{run_full-commits, FullDone}
use obsidian_archivist.Backup.Session.{claim_if_fresh, assert_vault_ownership, Service}
use obsidian_archivist.Startup.Report.{no_head}
use obsidian_archivist.Model.Failure.{ok, IfOk}
use obsidian_archivist.Common.Text.{Text-discrete, Text, codes}
use obsidian_archivist.Store.Index.{read, append, Net}
use obsidian_archivist.Backup.Runs.{upload_step, device_id_of, verify_first, RunCalls, run_full}
use obsidian_archivist.Backup.RunKeeps.{Sound}
use obsidian_archivist.Backup.Uploads.{
  collect_new_blobs, blob_failure, upload_batch, upload_batches, upload_blobs, resolve_parallelism,
  batches, read_batch, read_batches, read_and_hash_files, Octets,
}
use obsidian_archivist.Backup.Consistent.{IsConsistent}
use obsidian_archivist.Devices.Identity.{Identity, IdentityCalls}
use obsidian_archivist.Devices.Coordinator.{
  get_or_create_device_id, verify_no_conflict, DeviceCalls,
}
use obsidian_archivist.Devices.Uuid.{Bytes}
use obsidian_archivist.Backup.Rebuild.{RebuildCalls}
use obsidian_archivist.Backup.Commit.{
  queue_step, local_step, head_step, index_step, manifest_step, check_step, blobs_step,
  commit_snapshot, World, CommitCalls,
}
use obsidian_archivist.Common.{
  zero, suc, refl, true, false, ◌≡◌, arith, ℕ, Option, none, some, [], ◌∷◌,
}

abbrev zeros : ℕ → Text
zeros zero = []
zeros (suc n) = 48 ∷ zeros n

-- Every content has the same hash, 64 zeros.
abbrev pub hasher : Octets → Text
hasher bytes = zeros 64

abbrev pub bytes : Bytes
bytes = record {
  b0 = 0;
  b1 = 1;
  b2 = 2;
  b3 = 3;
  b4 = 4;
  b5 = 5;
  b6 = 6;
  b7 = 7;
  b8 = 8;
  b9 = 9;
  b10 = 10;
  b11 = 11;
  b12 = 12;
  b13 = 13;
  b14 = 14;
  b15 = 15;
}

abbrev pub device_calls : DeviceCalls
device_calls = record {
  load_fails = none;
  save_fails = none;
  random = bytes;
  now = 1000;
  time_of = λ t. some 0;
}

abbrev net : Net
net = record { download_fails = none; upload_fails = none; now = codes "now" }

abbrev rebuild_calls : RebuildCalls
rebuild_calls = record {
  read_net = net;
  write_net = net;
  list_fails = none;
  download_fails = λ p. false;
}

abbrev pub commit_calls : CommitCalls
commit_calls = record {
  upload_fails = λ hash chunk. none;
  check = device_calls;
  head_download_fails = none;
  manifest_fails = none;
  attempts = record { first = net; reread = net; second = net };
  rebuild = some rebuild_calls;
  head_fails = none;
  load_index_fails = none;
  save_index_fails = none;
  save_queue_fails = none;
  committed_at = codes "later";
}

abbrev pub identity_calls : IdentityCalls
identity_calls = record {
  load_fails = none;
  save_fails = none;
  download_fails = none;
  upload_fails = none;
  random = bytes;
  now = codes "now";
  vault_name = codes "Notes";
}

abbrev pub calls : RunCalls
calls = record {
  vault_prefix = codes "notes";
  vault_name = codes "Notes";
  created_at = codes "2026-04-23T14:00:07.000Z";
  exclusions_applied = none;
  settings_fail = none;
  upload_parallelism = none;
  reconcile_scan_enabled = false;
  load_index_fails = none;
  load_queue_fails = none;
  chain_fails = none;
  get_changed_paths = none;
  identity_calls = identity_calls;
  claim_calls = identity_calls;
  first_check = device_calls;
  first_head_fails = none;
  id_calls = device_calls;
  vault_files = record { path = codes "a.md"; mtime = 5; size = 1 } ∷ [];
  read = λ p. ok (1 ∷ []);
  hasher = hasher;
  full_upload_fails = λ hash chunk. none;
  commit = commit_calls;
}

abbrev pub empty_world : World
empty_world = record {
  blobs = [];
  manifests = [];
  index_file = none;
  head_file = no_head;
  local_index = none;
  queue = record { state = empty_queue; initialized = true; saved = empty_queue };
  device = record {
    id_promise = none;
    stored = record { device_id = none; designated = true; device_label = [] };
  };
}

abbrev pub new_service : Option Identity → Service
new_service identity = record {
  world = empty_world;
  identity = identity;
  first_inc_since_load = true;
  dropbox_chain_verified = false;
  vault_ownership_verified = none;
}

pub empty_world-IsConsistent : IsConsistent hasher empty_world
empty_world-IsConsistent = record {
  hashed = λ h b g. absurd (ground arith);
  backed = λ id m g. absurd (ground arith);
  keyed = refl;
  listed = refl;
  headed = refl;
  indexed = refl;
}

run_full_test : (run_full calls (new_service none)).1 ≡ ok 1
unfolding run_full assert_vault_ownership verify_first verify_no_conflict device_id_of
    get_or_create_device_id read_and_hash_files read_batches read_batch batches resolve_parallelism
    upload_step upload_blobs upload_batches upload_batch blob_failure content_path is_vault_prefix
    collect_new_blobs build_full_manifest full_files derive_id read_stamp group take_digits
    commit_snapshot blobs_step check_step manifest_step snapshot_path read_snapshot_id index_step
    append_with_self_heal append read head_step head_path local_step queue_step commit_window
    claim_if_fresh Text-discrete
run_full_test = refl

run_full-commits_example :
    let (after, result) = run_full calls (new_service none) in
    Sound hasher after × IfOk (λ n. FullDone calls n after) result
run_full-commits_example = run_full-commits calls (new_service none) empty_world-IsConsistent
