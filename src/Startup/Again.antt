-- ===== src/Startup/Again.antt =====
-- A second recovery finds nothing to repair.
use obsidian_archivist.Startup.Laws.{find_newest_member}
use obsidian_archivist.Startup.Recovery.{recover_loaded}
use obsidian_archivist.Startup.Converges.{
  check_gc_lock_state, recover-repair, recover_on_startup-IsRepaired, recover_on_startup_loaded,
  Stores, Finds,
}
use obsidian_archivist.Model.Failure.{ok}
use obsidian_archivist.Startup.Repaired.{names_head, IsRepaired}
use obsidian_archivist.Common.Text.{Text-discrete, same, Text}
use obsidian_archivist.Store.Index.{rows, read}
use obsidian_archivist.Startup.Report.{
  not_a_head, stale_gc_lock_found, no_head, fresh_startup_report, head, healthy, HeadFile, Disk,
  StartupReport, RecoveryEnv,
}
use obsidian_archivist.Startup.Recovery.{
  is_stale_lock, reconcile_index, recover_on_startup, reconcile_head, repair,
  reconcile_snapshot_index, check_gc_lock,
}
use obsidian_archivist.Startup.Manifests.{all_indexed, find_newest}
use obsidian_archivist.Model.Manifest.{LocalIndex, SnapshotManifest}
use mathlib.Core.Path.{◌≡◌, refl, ◌∙◌}
use obsidian_archivist.Common.{
  inr, ◌++◌, ap, inl, eqb_iff, arith, Bool-cases, true, any, none, some, List, [], ◌∷◌,
}

-- The reads of a recovery answer: those of the snapshot index, of HEAD and of the lock.
abbrev pub Reads : RecoveryEnv → Type 0
Reads env =
    (env.index_net.download_fails ≡ none)
    × (env.head_download_fails ≡ none)
    × (env.gc_lock_download_fails ≡ none)

any_named :
    (ms : List SnapshotManifest) (a b : Text)
    → a ≡ b
    → any (λ m. same m.id b) ms ≡ true
    → any (λ m. same m.id a) ms ≡ true
any_named ms a b e h = rw e h

index_stays :
    (env : RecoveryEnv) (ms : List SnapshotManifest) (disk : Disk) (r : StartupReport)
    → env.index_net.download_fails ≡ none
    → all_indexed ms (rows disk.index_file) ≡ true
    → reconcile_snapshot_index env ms disk r ≡ (disk, ok r)
unfolding reconcile_snapshot_index read
index_stays env ms disk r a p = ground arith

head_stays :
    (env : RecoveryEnv) (newest : SnapshotManifest) (ms : List SnapshotManifest) (disk : Disk)
    (r : StartupReport) (file : HeadFile)
    → disk.head_file ≡ file
    → env.head_download_fails ≡ none
    → names_head file newest.id ≡ true
    → any (λ m. same m.id newest.id) ms ≡ true
    → reconcile_head env newest ms disk r ≡ (disk, ok r)
unfolding reconcile_head
head_stays env newest ms disk r no_head e a q k = absurd (ground arith)
head_stays env newest ms disk r not_a_head e a q k = absurd (ground arith)
head_stays env newest ms disk r (head h) e a q k = ground (
  arith,
  any_named ms h.snapshot_id newest.id ((eqb_iff Text-discrete h.snapshot_id newest.id).0 q) k,
)

lock_checked :
    (env : RecoveryEnv) (r : StartupReport)
    → env.gc_lock_download_fails ≡ none
    → (r' : StartupReport) × (check_gc_lock env r ≡ ok r')
unfolding check_gc_lock
lock_checked env r c = elim (Bool-cases (is_stale_lock env env.gc_lock)) [
  | inl e ↦
      (record r { stale_gc_lock = true; notes = r.notes ++ stale_gc_lock_found ∷ [] }, ground arith)
  | inr e ↦ (r, ground arith)
]

nothing_to_repair :
    (env : RecoveryEnv) (index : LocalIndex) (newest : SnapshotManifest)
    (ms : List SnapshotManifest) (disk : Disk)
    → Reads env
    → IsRepaired ms newest disk
    → any (λ m. same m.id newest.id) ms ≡ true
    → env.save_index_fails ≡ none
    → (r : StartupReport) × (r.state ≡ healthy)
      × (repair env index newest ms disk
          ≡ (record disk { local_index = some (reconcile_index index newest) }, ok r))
unfolding repair
nothing_to_repair env index newest ms disk (a, b, c) (p, q) k v =
    let r0 = fresh_startup_report healthy in
    let (r, e) = lock_checked env r0 c in
    (
      r,
      check_gc_lock_state env r0 r e,
      ground (
        arith,
        index_stays env ms disk r0 a p,
        head_stays env newest ms disk r0 disk.head_file refl b q k,
        e,
      ),
    )

loads_through :
    (env : RecoveryEnv) (disk : Disk)
    → Stores env
    → recover_on_startup env disk ≡ recover_loaded env disk
unfolding recover_on_startup
loads_through env disk (a, b, c) = ground arith

-- A recovery that ended is not needed again: if the same calls fail as the first time, and the reads
-- of the snapshot index, of HEAD and of the lock and the save of the local index go through, one more
-- reports healthy and leaves the files of the snapshot index and of HEAD.
pub recover_on_startup_again :
    (env : RecoveryEnv) (disk d : Disk) (index : LocalIndex) (m : SnapshotManifest)
    (ms : List SnapshotManifest) (r : StartupReport)
    → disk.local_index ≡ some index
    → Finds env m ms
    → Reads env
    → env.save_index_fails ≡ none
    → recover_on_startup env disk ≡ (d, ok r)
    → (r' : StartupReport) × (r'.state ≡ healthy)
      × ((recover_on_startup env d).1 ≡ ok r')
      × ((recover_on_startup env d).0.index_file ≡ d.index_file)
      × ((recover_on_startup env d).0.head_file ≡ d.head_file)
recover_on_startup_again env disk d index m ms r i f a v h =
    let newest = find_newest m ms in
    let (done, l, calm) = recover_on_startup-IsRepaired env disk d index m ms r i f h in
    let index' = reconcile_index index newest in
    let (r', s, e) =
      nothing_to_repair env index' newest (m ∷ ms) d a done (find_newest_member m ms) v in
    let (stores, loaded) = recover_on_startup_loaded env disk d r h in
    let again = loads_through env d stores ∙ (recover-repair env d index' m ms l f ∙ e) in
    (r', s, ap (λ x. x.1) again, ap (λ x. x.0.index_file) again, ap (λ x. x.0.head_file) again)
