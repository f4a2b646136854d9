-- ===== src/Examples/Starting.antt =====
-- The recovery on startup at concrete inputs.
use obsidian_archivist.Startup.Recovery.{recover_loaded}
use obsidian_archivist.Startup.Again.{recover_on_startup_again}
use obsidian_archivist.Gc.Sweep.{no_lock}
use obsidian_archivist.Startup.Converges.{Finds}
use obsidian_archivist.Backup.LocalIndex.{empty_local_index}
use obsidian_archivist.Model.Failure.{ok}
use obsidian_archivist.Store.Index.{
  unique_hashes, read, rebuild_from_entries, rebuild, manifest_to_index_entry, valid, Net,
}
use obsidian_archivist.Startup.Recovery.{
  merge_files, check_gc_lock, rewrite_head, reconcile_head, reconcile_index,
  reconcile_snapshot_index, head_of, repair, repair_from, recover_on_startup,
}
use obsidian_archivist.Startup.Report.{
  healthy, snapshot_index_rebuilt, head, head_stale, StartupReport, RecoveryEnv, Disk,
}
use obsidian_archivist.Common.Text.{same, Text-discrete, less, codes, Text}
use obsidian_archivist.Startup.Manifests.{download_all_manifests, find_newest, list_snapshots_dir}
use obsidian_archivist.Common.{refl, ◌≡◌, if◌then◌else◌, false, true, ℕ, none, some, [], ◌∷◌}
use obsidian_archivist.Model.Manifest.{Files, FileEntry, SnapshotManifest, LocalIndex, SnapshotType}

abbrev one : ℕ → Text
one c = c ∷ []

abbrev manifest : Text → Files → SnapshotManifest
manifest id files = record {
  id = id;
  kind = SnapshotType.full;
  parent_id = none;
  device_id = one 1;
  created_at = id;
  vault_name = one 2;
  vault_prefix = one 3;
  files = files;
  deleted = [];
  renames = [];
  exclusions_applied = none;
}

abbrev entry : Text → FileEntry
entry h = record { hash = h; size = 1; mtime = 2 }

abbrev older : SnapshotManifest
older = manifest (one 50) ((one 10, entry (one 90)) ∷ [])

abbrev newer : SnapshotManifest
newer = manifest (one 51) ((one 10, entry (one 91)) ∷ [])

abbrev file_name : ℕ → Text
file_name c = c ∷ codes ".json"

abbrev online : Net
online = record { download_fails = none; upload_fails = none; now = one 61 }

-- The folder has two manifests and a file that is none.
abbrev env : RecoveryEnv
env = record {
  settings_load_fails = none;
  index_load_fails = none;
  queue_load_fails = none;
  save_index_fails = none;
  listing = ok (
      record { is_file = true; path = file_name 50 }
      ∷ record { is_file = true; path = file_name 51 }
      ∷ record { is_file = true; path = one 52 }
      ∷ []);
  download = λ p.
      if same p (file_name 50)
      then some older
      else if same p (file_name 51)
      then some newer
      else none;
  index_net = online;
  rebuild_net = online;
  head_download_fails = none;
  head_upload_fails = none;
  head_delete_fails = none;
  gc_lock = no_lock;
  gc_lock_download_fails = none;
  parse = λ t. none;
  now = 0;
  max_clock_skew_minutes = 5;
}

abbrev local : LocalIndex
local = record empty_local_index { last_full_snapshot_id = some (one 50) }

-- A crash after the upload of the newer manifest: HEAD and the index know only the older.
abbrev crashed : Disk
crashed = record {
  local_index = some local;
  index_file =
      some (
        valid
          (record { last_updated_at = one 50; snapshots = manifest_to_index_entry older ∷ [] }));
  head_file = head (head_of older);
}

abbrev repaired : Disk
repaired = record {
  local_index = some (record local { files = newer.files });
  index_file = some (
      valid (record {
        last_updated_at = one 61;
        snapshots = manifest_to_index_entry older ∷ manifest_to_index_entry newer ∷ [];
      }));
  head_file = head (head_of newer);
}

abbrev report : StartupReport
report = record { state = head_stale; stale_gc_lock = false; notes = snapshot_index_rebuilt ∷ [] }

found : Finds env older (newer ∷ [])
unfolding list_snapshots_dir download_all_manifests Text-discrete
found = (_, refl, refl)

ends : recover_on_startup env crashed ≡ (repaired, ok report)
unfolding recover_on_startup recover_loaded list_snapshots_dir download_all_manifests repair_from
    repair find_newest reconcile_snapshot_index reconcile_head rewrite_head check_gc_lock
    reconcile_index merge_files Text-discrete rebuild rebuild_from_entries read
    manifest_to_index_entry unique_hashes less
ends = refl

recover_on_startup_again_example :
    (r' : StartupReport) × (r'.state ≡ healthy)
    × ((recover_on_startup env repaired).1 ≡ ok r')
    × ((recover_on_startup env repaired).0.index_file ≡ repaired.index_file)
    × ((recover_on_startup env repaired).0.head_file ≡ repaired.head_file)
recover_on_startup_again_example =
    recover_on_startup_again env crashed repaired local older (newer ∷ []) report refl found
      (refl, refl, refl) refl ends
