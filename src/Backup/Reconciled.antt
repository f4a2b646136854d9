-- ===== src/Backup/Reconciled.antt =====
-- What the reconcile pass does with the events of the queue; and backups one after another.
use obsidian_archivist.Backup.IncRun.{run_incremental-commits}
use obsidian_archivist.Backup.FullRun.{run_full-commits}
use obsidian_archivist.Backup.RunKeeps.{Sound}
use obsidian_archivist.Backup.IncRuns.{run_incremental}
use obsidian_archivist.Backup.Buckets.{rename_entries, bucket_queue_entries}
use obsidian_archivist.Common.Text.{Text-discrete, Text}
use obsidian_archivist.Model.Manifest.{QueueEntry}
use obsidian_archivist.Backup.Runs.{run_full, RunCalls}
use obsidian_archivist.Backup.Session.{Service}
use obsidian_archivist.Backup.Uploads.{Octets}
use obsidian_archivist.Backup.Planning.{rename_paths, sort_found, plan_reconciled}
use obsidian_archivist.Common.{sym, has-add, add, arith, not, ◌||◌, ◌&&◌, ◌≡◌, has, List, [], ◌∷◌}

sort_found-changed :
    (ps renamed on_disk : List Text) (sets : List Text × List Text) (p : Text)
    → has Text-discrete (sort_found ps renamed on_disk sets).0 p ≡ (
        has Text-discrete sets.0 p
        || (has Text-discrete ps p
            && not (has Text-discrete renamed p)
            && has Text-discrete on_disk p))
unfolding sort_found
sort_found-changed [] renamed on_disk sets p = ground arith
sort_found-changed (q ∷ ps) renamed on_disk (changed, gone) p = ground (
  arith,
  sort_found-changed ps renamed on_disk (changed, gone) p,
  sort_found-changed ps renamed on_disk (add Text-discrete changed q, gone) p,
  sort_found-changed ps renamed on_disk (changed, add Text-discrete gone q) p,
  has-add Text-discrete changed q p,
)

sort_found-gone :
    (ps renamed on_disk : List Text) (sets : List Text × List Text) (p : Text)
    → has Text-discrete (sort_found ps renamed on_disk sets).1 p ≡ (
        has Text-discrete sets.1 p
        || (has Text-discrete ps p
            && not (has Text-discrete renamed p)
            && not (has Text-discrete on_disk p)))
unfolding sort_found
sort_found-gone [] renamed on_disk sets p = ground arith
sort_found-gone (q ∷ ps) renamed on_disk (changed, gone) p = ground (
  arith,
  sort_found-gone ps renamed on_disk (changed, gone) p,
  sort_found-gone ps renamed on_disk (add Text-discrete changed q, gone) p,
  sort_found-gone ps renamed on_disk (changed, add Text-discrete gone q) p,
  has-add Text-discrete gone q p,
)

-- The plan of the reconcile pass: it reads exactly the paths that the scan found, that are on disk
-- and that are of no queued rename; it deletes exactly those that the queue deletes, and those that
-- the scan found, that are not on disk and are of no queued rename. What else the queue says was
-- changed has no part in it.
pub plan_reconciled_lem :
    (entries : List QueueEntry) (found on_disk : List Text) (p : Text)
    → let plan = plan_reconciled entries found on_disk in
      let buckets = bucket_queue_entries entries in
      let renamed = rename_paths (rename_entries buckets) in
      (has Text-discrete plan.changes_paths p ≡ (
        has Text-discrete found p
        && not (has Text-discrete renamed p)
        && has Text-discrete on_disk p))
      × (has Text-discrete plan.deleted p ≡ (
          has Text-discrete buckets.deleted p
          || (has Text-discrete found p
              && not (has Text-discrete renamed p)
              && not (has Text-discrete on_disk p))))
unfolding plan_reconciled
plan_reconciled_lem entries found on_disk p =
    let buckets = bucket_queue_entries entries in
    let renamed = rename_paths (rename_entries buckets) in
    (
      sort_found-changed found renamed on_disk ([], buckets.deleted) p,
      sort_found-gone found renamed on_disk ([], buckets.deleted) p,
    )

-- Backups of a session one after another, full or incremental, each with what its calls give; one
-- that fails is followed by the next.
pub data Backup : Type 0 where
  full_backup inc_backup : RunCalls → Backup

unfoldable pub run_backups : List Backup → Service → Service
run_backups [] s = s
run_backups (full_backup calls ∷ bs) s = run_backups bs (run_full calls s).0
run_backups (inc_backup calls ∷ bs) s = run_backups bs (run_incremental calls s).0

abbrev pub calls_of : Backup → RunCalls
calls_of (full_backup calls) = calls
calls_of (inc_backup calls) = calls

-- Every backup has the hasher.
abbrev pub HaveHasher : (Octets → Text) → List Backup → Type 0
HaveHasher hasher [] = Unit {0}
HaveHasher hasher (b ∷ bs) = ((calls_of b).hasher ≡ hasher) × HaveHasher hasher bs

Sound-of : (h k : Octets → Text) (s : Service) → h ≡ k → Sound k s → Sound h s
Sound-of h k s e c = rw e c

-- Whatever backups run with one hasher, in whatever order, and whichever of their calls fail, those of
-- a rebuild of the index included, the stored state stays consistent: every manifest is stored under
-- its id and has its blobs, each under its hash, and every row of the index, HEAD and the local index
-- name stored manifests.
pub run_backups-Sound :
    (hasher : Octets → Text) (bs : List Backup) (s : Service)
    → HaveHasher hasher bs
    → Sound hasher s
    → Sound hasher (run_backups bs s)
unfolding run_backups
run_backups-Sound hasher [] s a c = c
run_backups-Sound hasher (full_backup calls ∷ bs) s (e, a) c =
    run_backups-Sound hasher bs (run_full calls s).0 a (
      Sound-of hasher calls.hasher (run_full calls s).0 (sym e)
        (run_full-commits calls s (Sound-of calls.hasher hasher s e c)).0)
run_backups-Sound hasher (inc_backup calls ∷ bs) s (e, a) c =
    run_backups-Sound hasher bs (run_incremental calls s).0 a (
      Sound-of hasher calls.hasher (run_incremental calls s).0 (sym e)
        (run_incremental-commits calls s (Sound-of calls.hasher hasher s e c)).0)
