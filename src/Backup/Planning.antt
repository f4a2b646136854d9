-- ===== src/Backup/Planning.antt =====
-- src/services/BackupService.ts, `runIncremental`: the chain check of the session, and what there is
-- to do, from the queue alone or from the scan of the vault.
use obsidian_archivist.Paths.Remote.{snapshot_path}
use obsidian_archivist.Restore.Chain.{is_full_kind}
use obsidian_archivist.Backup.Consistent.{tip}
use obsidian_archivist.Backup.Session.{Run}
use obsidian_archivist.Backup.Commit.{World}
use obsidian_archivist.Backup.Buckets.{rename_entries, bucket_queue_entries}
use obsidian_archivist.Backup.ChainWalk.{broken, walk_chain_to_full, Link, intact, ChainStatus}
use obsidian_archivist.Common.Text.{Text-discrete, less, Text}
use obsidian_archivist.Model.Failure.{unknown, path_not_found, err, ok, Result, Failure}
use obsidian_archivist.Model.Manifest.{RenameEntry, QueueEntry, SnapshotManifest, LocalIndex}
use obsidian_archivist.Common.{
  add, has, ◌++◌, get, map, false, if◌then◌else◌, ◌&&◌, true, Bool, Option, none, some, List, [],
  ◌∷◌,
}

-- What the walk along the chain reads of a stored manifest, and how its download fails, if it does.
abbrev pub link_of : Option SnapshotManifest → Result Link
link_of none = err path_not_found
link_of (some m) = ok (record { is_full = is_full_kind m.kind; parent_id = m.parent_id })

-- The download from the path of an id, which may have none.
abbrev pub load_link : Text → Option Failure → List (Text × SnapshotManifest) → Text → Result Link
load_link prefix fails ms id = elim (snapshot_path prefix id) [
  | err f ↦ err f
  | ok path ↦ elim fails [ some f ↦ err f | none ↦ link_of (get Text-discrete ms id) ]
]

-- The walk always returns, so that the last case never comes.
abbrev pub walked : Option (Result ChainStatus) → Result ChainStatus
walked (some r) = r
walked none = err unknown

abbrev pub is_broken : ChainStatus → Bool
is_broken (intact d) = false
is_broken (broken m r d why) = true

-- Whether the chain of the index's snapshot is broken.
unfoldable pub chain_is_broken : Text → Option Failure → World → Option Text → Result Bool
chain_is_broken prefix fails w none = ok false
chain_is_broken prefix fails w (some start) =
    elim (walked (walk_chain_to_full (load_link prefix fails w.manifests) start)) [
      | err f ↦ err f
      | ok status ↦ ok (is_broken status)
    ]

-- The check that a session makes once. A download that fails otherwise than by a missing file goes
-- on, and the check is made again by the next run.
unfoldable pub verify_chain : Text → Option Failure → LocalIndex → Run Bool
unfolding chain_is_broken
verify_chain prefix fails i s =
    if s.dropbox_chain_verified
    then (s, ok false)
    else elim (chain_is_broken prefix fails s.world (tip i)) [
      | err f ↦ (s, err f)
      | ok is_broken ↦ (record s { dropbox_chain_verified = true }, ok is_broken)
    ]

pub record Plan : Type 0 where
  pub changes_paths : List Text
  pub deleted : List Text
  pub renames : List RenameEntry

-- The loop over what the detector found: a path of a rename is skipped, one on disk was changed,
-- another deleted.
unfoldable pub sort_found :
    List Text → List Text → List Text → List Text × List Text → List Text × List Text
sort_found [] renamed on_disk sets = sets
sort_found (p ∷ ps) renamed on_disk (changed, gone) =
    if has Text-discrete renamed p
    then sort_found ps renamed on_disk (changed, gone)
    else if has Text-discrete on_disk p
    then sort_found ps renamed on_disk (add Text-discrete changed p, gone)
    else sort_found ps renamed on_disk (changed, add Text-discrete gone p)

abbrev pub rename_paths : List RenameEntry → List Text
rename_paths rs = map (λ (r : RenameEntry). r.from) rs ++ map (λ (r : RenameEntry). r.to) rs

-- The reconcile branch: changes come from the scan alone, deletes from the queue and the scan,
-- renames from the queue.
unfoldable pub plan_reconciled : List QueueEntry → List Text → List Text → Plan
plan_reconciled entries found on_disk =
    let buckets = bucket_queue_entries entries in
    let renames = rename_entries buckets in
    let (changed, gone) = sort_found found (rename_paths renames) on_disk ([], buckets.deleted) in
    record { changes_paths = changed; deleted = gone; renames = renames }

unfoldable pub plan_queued : List QueueEntry → Plan
plan_queued entries =
    let buckets = bucket_queue_entries entries in
    record {
      changes_paths = buckets.changes;
      deleted = buckets.deleted;
      renames = rename_entries buckets;
    }

abbrev pub is_nil {ℓ} : {A : Type ℓ} → List A → Bool
is_nil [] = true
is_nil (x ∷ xs) = false

abbrev pub is_idle : Plan → Bool
is_idle p = is_nil p.changes_paths && is_nil p.deleted && is_nil p.renames

-- The detector that the reconcile pass uses, none where it makes no pass.
abbrev pub detector_of :
    Bool
    → Bool
    → Option (LocalIndex → Result (List Text))
    → Option (LocalIndex → Result (List Text))
detector_of true true d = d
detector_of true false d = none
detector_of false enabled d = none

abbrev pub unless_idle : Bool → Plan → Option Plan
unless_idle true p = none
unless_idle false p = some p

-- What is to do, none for nothing.
unfoldable pub make_plan :
    Option (LocalIndex → Result (List Text))
    → LocalIndex
    → List QueueEntry
    → List Text
    → Result (Option Plan)
make_plan none i entries on_disk = ok (unless_idle (is_nil entries) (plan_queued entries))
make_plan (some scan) i entries on_disk = elim (scan i) [
  | err f ↦ err f
  | ok found ↦ let p = plan_reconciled entries found on_disk in ok (unless_idle (is_idle p) p)
]

-- The greatest `observed_at` of the entries, or the fallback.
abbrev pub later : Text → Text → Text
later a b = if less a b then b else a

abbrev pub max_observed_from : Text → List QueueEntry → Text
max_observed_from t [] = t
max_observed_from t (e ∷ es) = max_observed_from (later t e.observed_at) es

unfoldable pub max_observed : List QueueEntry → Text → Text
max_observed [] fallback = fallback
max_observed (e ∷ es) fallback = max_observed_from e.observed_at (e ∷ es)
