-- ===== src/Startup/Converges.antt =====
-- What the whole recovery leaves.
use obsidian_archivist.Startup.Laws.{entry_hash}
use obsidian_archivist.Restore.Laws.{at, last_at, or_else}
use obsidian_archivist.Startup.Recovery.{recover_loaded, save_index}
use obsidian_archivist.Common.Text.{same, less, Text}
use obsidian_archivist.Common.{any, all, not, ◌&&◌, ◌||◌, true, none, inl, inr, Option-cases}
use obsidian_archivist.Startup.Manifests.{download_all_manifests, find_newest, list_snapshots_dir}
use mathlib.Core.Path.{refl, ◌∙◌}
use obsidian_archivist.Startup.Repaired.{
  reconcile_head_lem, report_of, reconcile_snapshot_index_lem, IsRepaired,
}
use obsidian_archivist.Model.Manifest.{SnapshotManifest, LocalIndex}
use obsidian_archivist.Model.Failure.{err, ok, Result}
use obsidian_archivist.Startup.Report.{
  Listed, fresh_startup_report, healthy, StartupReport, RecoveryEnv, Disk,
}
use obsidian_archivist.Startup.Recovery.{
  repair_from, recover_on_startup, reconcile_head, reconcile_snapshot_index, reconcile_index,
  and_then, repair, check_gc_lock,
}
use obsidian_archivist.Common.{sym, ◌∷◌, ap, arith, ◌≡◌, some, List}

-- A chain of two steps ends in a report only where both do.
chained :
    (x : Disk × Result StartupReport) (k : Disk → StartupReport → Disk × Result StartupReport)
    (d : Disk) (r : StartupReport)
    → and_then x k ≡ (d, ok r)
    → (d1 : Disk) × (r1 : StartupReport) × (x ≡ (d1, ok r1)) × (k d1 r1 ≡ (d, ok r))
chained (d1, ok r1) k d r h = (d1, r1, refl, h)
chained (d1, err f) k d r h = absurd (ground arith)

pub check_gc_lock_state :
    (env : RecoveryEnv) (r r' : StartupReport) → check_gc_lock env r ≡ ok r' → r'.state ≡ r.state
unfolding check_gc_lock
check_gc_lock_state env r r' h = ground arith

save_index_lem :
    (env : RecoveryEnv) (i : LocalIndex) (d3 d : Disk) (r3 r : StartupReport)
    → save_index env i d3 r3 ≡ (d, ok r)
    → (record d3 { local_index = some i } ≡ d) × (r3 ≡ r)
save_index_lem env i d3 d r3 r h = elim (Option-cases env.save_index_fails) [
  | inl e ↦ (ground arith, ground arith)
  | inr (f, e) ↦ absurd (ground arith)
]

IsRepaired-by :
    (env : RecoveryEnv) (index : LocalIndex) (newest : SnapshotManifest)
    (ms : List SnapshotManifest) (disk d1 d2 d3 d : Disk) (r1 r2 r3 r : StartupReport)
    → reconcile_snapshot_index env ms disk (fresh_startup_report healthy) ≡ (d1, ok r1)
    → reconcile_head env newest ms d1 r1 ≡ (d2, ok r2)
    → d2 ≡ d3
    → check_gc_lock env r2 ≡ ok r3
    → save_index env (reconcile_index index newest) d3 r3 ≡ (d, ok r)
    → IsRepaired ms newest d
      × (d.local_index ≡ some (reconcile_index index newest))
      × (r.state ≡ healthy → (d.index_file ≡ disk.index_file) × (d.head_file ≡ disk.head_file))
IsRepaired-by env index newest ms disk d1 d2 d3 d r1 r2 r3 r e1 e2 e3 g e4 =
    let (rows_in, head_as, calm) =
      reconcile_snapshot_index_lem env ms disk (fresh_startup_report healthy) r1
        (ap report_of e1) in
    let (named, rows_as, quiet) = reconcile_head_lem env newest ms d1 r1 r2 (ap report_of e2) in
    let state_as = check_gc_lock_state env r2 r3 g in
    let (e5, e6) = save_index_lem env (reconcile_index index newest) d3 d r3 r e4 in
    ((ground arith, ground arith), ground arith, (λ k. (ground arith, ground arith)))

repair_lem :
    (env : RecoveryEnv) (index : LocalIndex) (newest : SnapshotManifest)
    (ms : List SnapshotManifest) (disk d : Disk) (r : StartupReport)
    → repair env index newest ms disk ≡ (d, ok r)
    → IsRepaired ms newest d
      × (d.local_index ≡ some (reconcile_index index newest))
      × (r.state ≡ healthy → (d.index_file ≡ disk.index_file) × (d.head_file ≡ disk.head_file))
unfolding repair
repair_lem env index newest ms disk d r h =
    let (d1, r1, e1, h1) =
      chained (reconcile_snapshot_index env ms disk (fresh_startup_report healthy)) _ d r h in
    let (d2, r2, e2, h2) = chained (reconcile_head env newest ms d1 r1) _ d r h1 in
    let (d3, r3, e3, h3) = chained (d2, check_gc_lock env r2) _ d r h2 in
    IsRepaired-by env index newest ms disk d1 d2 d3 d r1 r2 r3 r e1 e2 (ap (λ x. x.0) e3)
      (ap (λ x. x.1) e3) h3

-- The manifests that a recovery works with, the first apart.
abbrev pub Finds : RecoveryEnv → SnapshotManifest → List SnapshotManifest → Type 0
Finds env m ms =
    (es : List Listed) × (list_snapshots_dir env ≡ ok es) × (download_all_manifests env es ≡ m ∷ ms)

pub recover-repair :
    (env : RecoveryEnv) (disk : Disk) (index : LocalIndex) (m : SnapshotManifest)
    (ms : List SnapshotManifest)
    → disk.local_index ≡ some index
    → Finds env m ms
    → recover_loaded env disk ≡ repair env index (find_newest m ms) (m ∷ ms) disk
unfolding recover_loaded repair_from
recover-repair env disk index m ms i (es, e, f) = ground arith

-- The loads of the settings, the local index and the queue go through.
abbrev pub Stores : RecoveryEnv → Type 0
Stores env =
    (env.settings_load_fails ≡ none) × (env.index_load_fails ≡ none) × (env.queue_load_fails ≡ none)

pub recover_on_startup_loaded :
    (env : RecoveryEnv) (disk d : Disk) (r : StartupReport)
    → recover_on_startup env disk ≡ (d, ok r)
    → Stores env × (recover_loaded env disk ≡ (d, ok r))
unfolding recover_on_startup
recover_on_startup_loaded env disk d r h = elim (Option-cases env.settings_load_fails) [
  | inr (f, e) ↦ absurd (ground arith)
  | inl e ↦ elim (Option-cases env.index_load_fails) [
    | inr (f, g) ↦ absurd (ground arith)
    | inl g ↦ elim (Option-cases env.queue_load_fails) [
      | inr (f, k) ↦ absurd (ground arith)
      | inl k ↦ ((e, g, k), ground arith)
    ]
  ]
]

pub recover_on_startup-IsRepaired :
    (env : RecoveryEnv) (disk d : Disk) (index : LocalIndex) (m : SnapshotManifest)
    (ms : List SnapshotManifest) (r : StartupReport)
    → disk.local_index ≡ some index
    → Finds env m ms
    → recover_on_startup env disk ≡ (d, ok r)
    → let newest = find_newest m ms in
      IsRepaired (m ∷ ms) newest d
      × (d.local_index ≡ some (reconcile_index index newest))
      × (r.state ≡ healthy → (d.index_file ≡ disk.index_file) × (d.head_file ≡ disk.head_file))
recover_on_startup-IsRepaired env disk d index m ms r i f h =
    let (stores, loaded) = recover_on_startup_loaded env disk d r h in
    repair_lem env index (find_newest m ms) (m ∷ ms) disk d r
      (sym (recover-repair env disk index m ms i f) ∙ loaded)

-- A manifest is the newest of some: it is one of them, and none of them has a greater time, or the
-- same time and a greater id.
abbrev pub IsNewest : SnapshotManifest → List SnapshotManifest → Type 0
IsNewest newest ms =
    (any (λ x. same x.id newest.id) ms ≡ true)
    × (all
          (λ x. not (
            less newest.created_at x.created_at
            || (same x.created_at newest.created_at && less newest.id x.id)))
          ms
        ≡ true)

-- The index that a recovery saves: the old one but for its files, in which each path has the hash
-- that the manifest lists for it, or else the hash that it had.
abbrev pub IsMerged : LocalIndex → SnapshotManifest → LocalIndex → Type 0
IsMerged index newest merged =
    (merged ≡ record index { files = merged.files })
    × ((p : Text)
        → entry_hash (at merged.files p)
          ≡ entry_hash (or_else (last_at newest.files p) (at index.files p)))
