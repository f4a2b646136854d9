-- ===== src/Retention/Service.antt =====
-- src/services/RetentionService.ts: a retention pass over the snapshot index. The local index, the
-- settings and the remote are arguments; what the remote answers is in the record of the outcomes.
use obsidian_archivist.Retention.Ancestors.{augment_with_ancestors, Marked, ChainSnapshot}
use obsidian_archivist.Store.Index.{succeeded, remove, Net, IndexFile}
use obsidian_archivist.Retention.Tiers.{ids_of, evaluate_tiers, RetentionSettings}
use obsidian_archivist.Retention.Dates.{Dates}
use obsidian_archivist.Common.Text.{Text-discrete, same, Text}
use obsidian_archivist.Model.Manifest.{SnapshotIndexEntry, SnapshotIndex}
use obsidian_archivist.Common.{
  map, ◌+◌, length, ◌++◌, has, leb, not, false, filter, true, if◌then◌else◌, ℕ, Bool, Option, none,
  some, List, [], ◌∷◌,
}

pub data RetentionState : Type 0 where
  skipped_throttle pruned no_op_fresh no_op_all_kept all_deletes_failed : RetentionState

pub record RetentionResult : Type 0 where
  pub ran : Bool
  pub pruned_ids : List Text
  pub failed_deletes : List Text
  pub state : RetentionState

abbrev pub retention_interval_ms : ℕ
retention_interval_ms = 86400000

-- `now - last >= interval`, false where the last time is no date.
abbrev pub is_due : Dates → Option Text → ℕ → Bool
is_due dates none now = true
is_due dates (some last) now = elim (dates.time_of last) [
  | none ↦ false
  | some t ↦ leb (t + retention_interval_ms) now
]

-- The remote: the ids whose manifest file is there, and the index file.
pub record Remote : Type 0 where
  pub manifests : List Text
  pub index_file : IndexFile

-- For each id: whether `deleteV2` of its manifest goes through, and the network of the `remove`
-- after it.
pub record Outcomes : Type 0 where
  pub delete_ok : Text → Bool
  pub remove_net : Text → Net

pub record Pruned : Type 0 where
  pub remote : Remote
  pub pruned : List Text
  pub failed : List Text

-- One turn of the loop of `pruneSnapshots`: the manifest, then the row; a failure of either is
-- caught, and the id counts as failed.
unfoldable pub prune_one : Outcomes → Text → Pruned → Pruned
prune_one out id p =
    if not (out.delete_ok id)
    then record p { failed = p.failed ++ id ∷ [] }
    else (let gone = filter (λ j. not (same j id)) p.remote.manifests in
        let (file, result) = remove (out.remove_net id) id p.remote.index_file in
        let remote : Remote = record { manifests = gone; index_file = file } in
        if succeeded result
        then record p { remote = remote; pruned = p.pruned ++ id ∷ [] }
        else record p { remote = remote; failed = p.failed ++ id ∷ [] })

unfoldable pub prune_all : Outcomes → List Text → Pruned → Pruned
prune_all out [] p = p
prune_all out (id ∷ ids) p = prune_all out ids (prune_one out id p)

abbrev pub chain_snapshot : SnapshotIndexEntry → ChainSnapshot
chain_snapshot s = record { id = s.id; kind = s.kind; parent_id = s.parent_id }

-- With one round more than there are snapshots the walks end.
unfoldable pub compute_keep_set : Dates → SnapshotIndex → RetentionSettings → ℕ → Option Marked
compute_keep_set dates index settings now =
    augment_with_ancestors (length index.snapshots + 1)
      (evaluate_tiers dates index.snapshots settings now) (map chain_snapshot index.snapshots)

abbrev pub prune_ids : SnapshotIndex → List Text → List Text
prune_ids index keep = filter (λ id. not (has Text-discrete keep id)) (ids_of index.snapshots)

unfoldable pub prune_snapshots : Outcomes → SnapshotIndex → List Text → Remote → Pruned
unfolding prune_all
prune_snapshots out index keep remote =
    prune_all out (prune_ids index keep) (record { remote = remote; pruned = []; failed = [] })

abbrev pub resolve_state : List Text → List Text → RetentionState
resolve_state [] [] = no_op_all_kept
resolve_state [] (f ∷ fs) = all_deletes_failed
resolve_state (p ∷ ps) fs = RetentionState.pruned

-- What the dry run reports.
pub data DryRunState : Type 0 where
  evaluated no_op_fresh no_op_all_kept : DryRunState

pub record DryRun : Type 0 where
  pub state : DryRunState
  pub total_snapshots : ℕ
  pub would_prune : List SnapshotIndexEntry
  pub would_keep : List SnapshotIndexEntry

abbrev pub dry_state : List SnapshotIndexEntry → DryRunState
dry_state [] = DryRunState.no_op_all_kept
dry_state (s ∷ ss) = evaluated

-- The two rows of `dryRun` for a keep set; a row is given whole.
unfoldable pub dry_run_of : SnapshotIndex → List Text → DryRun
dry_run_of index keep =
    let gone = filter (λ s. not (has Text-discrete keep s.id)) index.snapshots in
    record {
      state = dry_state gone;
      total_snapshots = length index.snapshots;
      would_prune = gone;
      would_keep = filter (λ s. has Text-discrete keep s.id) index.snapshots;
    }
