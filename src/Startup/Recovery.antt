-- ===== src/Startup/Recovery.antt =====
-- src/services/StartupRecovery.ts: `recoverOnStartup` and its helpers. What the remote answers at
-- each call is given; the files that the recovery may write are its state.
use obsidian_archivist.Startup.Manifests.{
  snapshots_of, download_all_manifests, all_indexed, list_snapshots_dir, find_newest,
}
use obsidian_archivist.Store.Index.{rebuild, read}
use obsidian_archivist.Gc.Sweep.{lock, LockFile}
use obsidian_archivist.Common.Text.{Text-discrete, same}
use obsidian_archivist.Model.Failure.{◌>>=◌, path_not_found, ok, err, Result}
use obsidian_archivist.Startup.Report.{
  head_stale, snapshot_index_rebuilt, head_points_to_missing, stale_gc_lock_found, fresh_folder,
  index_missing, head, snapshot_index_stale, no_head, healthy, fresh_startup_report, StartupReport,
  HeadFile, Head, StartupState, RecoveryEnv, Disk,
}
use obsidian_archivist.Model.Manifest.{LocalIndex, FileEntry, Files, SnapshotManifest}
use obsidian_archivist.Backup.LocalIndex.{empty_local_index}
use obsidian_archivist.Common.{
  ◌*◌, put, ◌+◌, ◌++◌, any, ltb, get, not, false, if◌then◌else◌, true, Bool, Option, none, some,
  List, [], ◌∷◌,
}

abbrev pub is_healthy : StartupState → Bool
is_healthy healthy = true
is_healthy _ = false

unfoldable pub reconcile_snapshot_index :
    RecoveryEnv → List SnapshotManifest → Disk → StartupReport → Disk × Result StartupReport
reconcile_snapshot_index env ms disk report =
    if all_indexed ms (snapshots_of (read env.index_net disk.index_file))
    then (disk, ok report)
    else (let (file, result) = rebuild env.rebuild_net ms disk.index_file in
        (
          record disk { index_file = file },
          result >>= λ u. ok (record report {
            notes = report.notes ++ snapshot_index_rebuilt ∷ [];
            state = if is_healthy report.state then snapshot_index_stale else report.state;
          }),
        ))

abbrev pub head_of : SnapshotManifest → Head
head_of m = record {
  snapshot_id = m.id;
  snapshot_type = m.kind;
  device_id = m.device_id;
  committed_at = m.created_at;
}

-- `rewriteHead` and the report behind it.
unfoldable pub rewrite_head :
    RecoveryEnv → SnapshotManifest → Disk → StartupReport → Disk × Result StartupReport
rewrite_head env m disk report = elim env.head_upload_fails [
  | some f ↦ (disk, err f)
  | none ↦ (record disk { head_file = head (head_of m) }, ok report)
]

-- A report that said healthy or a stale index says `st`, a more severe one stays.
abbrev pub raise : StartupState → StartupReport → StartupReport
raise st report = elim report.state [
  | healthy ↦ record report { state = st }
  | snapshot_index_stale ↦ record report { state = st }
  | _ ↦ report
]

-- The download of HEAD, a missing file as none.
abbrev pub head_read : RecoveryEnv → HeadFile → Result HeadFile
head_read env file = elim env.head_download_fails [
  | none ↦ ok file
  | some path_not_found ↦ ok no_head
  | some f ↦ err f
]

unfoldable pub reconcile_head :
    RecoveryEnv
    → SnapshotManifest
    → List SnapshotManifest
    → Disk
    → StartupReport
    → Disk × Result StartupReport
unfolding rewrite_head
reconcile_head env newest ms disk report = elim (head_read env disk.head_file) [
  | err f ↦ (disk, err f)
  | ok (head h) ↦
      if not (any (λ m. same m.id h.snapshot_id) ms)
      then rewrite_head env newest disk (record report { state = head_points_to_missing })
      else if not (same h.snapshot_id newest.id)
      then rewrite_head env newest disk (raise head_stale report)
      else (disk, ok report)
  | ok _ ↦ rewrite_head env newest disk (raise head_points_to_missing report)
]

-- One turn of the loop over the files of the manifest.
abbrev pub needs_update : Option FileEntry → FileEntry → Bool
needs_update none e = true
needs_update (some i) e = not (same i.hash e.hash)

unfoldable pub merge_files : Files → Files → Files
merge_files files [] = files
merge_files files ((p, e) ∷ fs) =
    merge_files
      (if needs_update (get Text-discrete files p) e then put Text-discrete files p e else files) fs

-- With nothing changed the index is returned as it is, which is the same record.
unfoldable pub reconcile_index : LocalIndex → SnapshotManifest → LocalIndex
unfolding merge_files
reconcile_index index m = record index { files = merge_files index.files m.files }

-- `ageMs > thresholdMs`, false for NaN, with the difference written as a sum.
abbrev pub is_stale_lock : RecoveryEnv → LockFile → Bool
is_stale_lock env (lock started device) = elim (env.parse started) [
  | none ↦ false
  | some t ↦ ltb (t + (1 * 60 + env.max_clock_skew_minutes) * 60 * 1000) env.now
]
is_stale_lock env _ = false

unfoldable pub check_gc_lock : RecoveryEnv → StartupReport → Result StartupReport
check_gc_lock env report = elim env.gc_lock_download_fails [
  | some path_not_found ↦ ok report
  | some f ↦ err f
  | none ↦
      if is_stale_lock env env.gc_lock
      then ok
          (record report { stale_gc_lock = true; notes = report.notes ++ stale_gc_lock_found ∷ [] })
      else ok report
]

-- `saveIndex`, and the report behind it.
abbrev pub save_index :
    RecoveryEnv → LocalIndex → Disk → StartupReport → Disk × Result StartupReport
save_index env index disk report = elim env.save_index_fails [
  | some f ↦ (disk, err f)
  | none ↦ (record disk { local_index = some index }, ok report)
]

abbrev pub handle_index_missing : RecoveryEnv → Disk → Disk × Result StartupReport
handle_index_missing env disk =
    save_index env (record empty_local_index { index_missing_recovery_required = true }) disk
      (fresh_startup_report index_missing)

-- A HEAD that cannot be deleted stays, which is only logged.
abbrev pub handle_fresh_folder : RecoveryEnv → Disk → Disk × Result StartupReport
handle_fresh_folder env disk = (
  record disk {
    head_file = elim env.head_delete_fails [ none ↦ no_head | some f ↦ disk.head_file ];
  },
  ok (fresh_startup_report fresh_folder),
)

-- The next step of the recovery, unless the last one threw.
abbrev pub and_then :
    Disk × Result StartupReport
    → (Disk → StartupReport → Disk × Result StartupReport)
    → Disk × Result StartupReport
and_then (disk, err f) k = (disk, err f)
and_then (disk, ok report) k = k disk report

-- Steps 7 to 11.
unfoldable pub repair :
    RecoveryEnv
    → LocalIndex
    → SnapshotManifest
    → List SnapshotManifest
    → Disk
    → Disk × Result StartupReport
unfolding reconcile_snapshot_index reconcile_head check_gc_lock reconcile_index
repair env index newest ms disk =
    and_then (reconcile_snapshot_index env ms disk (fresh_startup_report healthy)) (λ disk1 r1.
      and_then (reconcile_head env newest ms disk1 r1) (λ disk2 r2.
        and_then (disk2, check_gc_lock env r2)
          (λ disk3 r3. save_index env (reconcile_index index newest) disk3 r3)))

unfoldable pub repair_from :
    RecoveryEnv → LocalIndex → List SnapshotManifest → Disk → Disk × Result StartupReport
unfolding repair find_newest
repair_from env index [] disk = handle_fresh_folder env disk
repair_from env index (m ∷ ms) disk = repair env index (find_newest m ms) (m ∷ ms) disk

-- Steps 4 to 11. A folder with no manifest file has no manifest either, so that both early returns for a fresh
-- folder are the one of `repair_from`.
unfoldable pub recover_loaded : RecoveryEnv → Disk → Disk × Result StartupReport
unfolding list_snapshots_dir download_all_manifests repair_from
recover_loaded env disk = elim (list_snapshots_dir env) [
  | err f ↦ (disk, err f)
  | ok entries ↦ elim disk.local_index [
    | none ↦ handle_index_missing env disk
    | some index ↦ repair_from env index (download_all_manifests env entries) disk
  ]
]

-- Steps 1 to 3, and the rest where they go through. The queue is only loaded.
unfoldable pub recover_on_startup : RecoveryEnv → Disk → Disk × Result StartupReport
unfolding recover_loaded
recover_on_startup env disk = elim env.settings_load_fails [
  | some f ↦ (disk, err f)
  | none ↦ elim env.index_load_fails [
    | some f ↦ (disk, err f)
    | none ↦ elim env.queue_load_fails [ some f ↦ (disk, err f) | none ↦ recover_loaded env disk ]
  ]
]
