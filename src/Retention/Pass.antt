-- ===== src/Retention/Pass.antt =====
-- src/services/RetentionService.ts: `runIfDue`, `runNow` and `dryRun`, from the inputs of a pass to
-- its result and its effects. `none` stands for a walk that ran out of rounds, which never happens.
use mathlib.Core.Option
use obsidian_archivist.Store.Heal.{is_corruption}
use obsidian_archivist.Retention.Tiers.{RetentionSettings}
use obsidian_archivist.Common.Text.{Text}
use obsidian_archivist.Model.Failure.{ok, err, Result}
use obsidian_archivist.Store.Index.{Net, rebuild, read, IndexFile}
use obsidian_archivist.Model.Manifest.{SnapshotManifest, SnapshotIndex, LocalIndex}
use obsidian_archivist.Model.Failure.{Failure}
use obsidian_archivist.Retention.Dates.{Dates}
use obsidian_archivist.Retention.Service.{
  Outcomes, resolve_state, skipped_throttle, is_due, prune_snapshots, compute_keep_set,
  RetentionResult, DryRunState, dry_run_of, Remote, RetentionState, DryRun,
}
use obsidian_archivist.Common.{
  not, if◌then◌else◌, ℕ, false, true, Bool, Option, none, some, List, [], ◌∷◌,
}

-- What the pass reads: the clock as a number and as a text, the settings, the network at the reads
-- of the index and at a rebuild, what a listing of the manifests gives, the outcomes of the deletes,
-- and how the load of the settings and the save of the local index fail, if they do.
pub record PassEnv : Type 0 where
  pub dates : Dates
  pub now : ℕ
  pub now_iso : Text
  pub settings : RetentionSettings
  pub read_net : Net
  pub rebuild_net : Net
  pub reread_net : Net
  pub listed_manifests : Result (List SnapshotManifest)
  pub outcomes : Outcomes
  pub load_settings_fails : Option Failure
  pub save_index_fails : Option Failure

-- What a pass leaves: the local index that it saved, the remote, and whether it dropped the
-- manifest cache and set off a sweep.
pub record After : Type 0 where
  pub saved_index : Option LocalIndex
  pub remote : Remote
  pub cache_invalidated : Bool
  pub gc_triggered : Bool
  pub result : RetentionResult

rebuild_index : PassEnv → IndexFile → IndexFile × Result (Option SnapshotIndex)
rebuild_index env file = elim env.listed_manifests [
  | err f ↦ (file, err f)
  | ok manifests ↦
      let (after, result) = rebuild env.rebuild_net manifests file in
      elim result [ err f ↦ (after, err f) | ok u ↦ (after, read env.reread_net after) ]
]

-- A missing or corrupt index is rebuilt from the manifests; another failure goes on.
unfoldable pub load_or_rebuild_index :
    PassEnv → IndexFile → IndexFile × Result (Option SnapshotIndex)
unfolding rebuild_index
load_or_rebuild_index env file = elim (read env.read_net file) [
  | ok none ↦ rebuild_index env file
  | ok (some i) ↦ (file, ok (some i))
  | err f ↦ if is_corruption f then rebuild_index env file else (file, err f)
]

abbrev pub stamped : PassEnv → LocalIndex → LocalIndex
stamped env l = record l { last_retention_at = some env.now_iso }

abbrev pub is_empty {ℓ} : {A : Type ℓ} → List A → Bool
is_empty [] = true
is_empty (x ∷ xs) = false

abbrev pub no_run : RetentionState → RetentionResult
no_run st = record { ran = false; pruned_ids = []; failed_deletes = []; state = st }

evaluate : PassEnv → LocalIndex → Remote → SnapshotIndex → Option After
evaluate env l remote index = elim (compute_keep_set env.dates index env.settings env.now) [
  | none ↦ none
  | some marked ↦
      let p = prune_snapshots env.outcomes index marked.chain_keep remote in
      some (record {
        saved_index = some (stamped env l);
        remote = p.remote;
        cache_invalidated = not (is_empty p.pruned);
        gc_triggered = not (is_empty p.pruned);
        result = record {
          ran = true;
          pruned_ids = p.pruned;
          failed_deletes = p.failed;
          state = resolve_state p.pruned p.failed;
        };
      })
]

abbrev pub untouched : Remote → Option LocalIndex → RetentionResult → After
untouched remote saved result = record {
  saved_index = saved;
  remote = remote;
  cache_invalidated = false;
  gc_triggered = false;
  result = result;
}

-- What the pass leaves, unless `persistTimestamp` fails.
abbrev pub persisted : PassEnv → After → Result After
persisted env a = elim env.save_index_fails [ none ↦ ok a | some f ↦ err f ]

-- `_runEvaluation` behind the load of the index: a failure of it goes on to the caller.
unfoldable pub run_loaded :
    PassEnv → LocalIndex → Remote → Result (Option SnapshotIndex) → Option (Result After)
unfolding evaluate
run_loaded env l remote (err f) = some (err f)
run_loaded env l remote (ok none) = some (
    persisted env (
      untouched remote (some (stamped env l)) (record {
        ran = true;
        pruned_ids = [];
        failed_deletes = [];
        state = RetentionState.no_op_fresh;
      })))
run_loaded env l remote (ok (some index)) = Option.map (persisted env) (evaluate env l remote index)

unfoldable pub run_evaluation : PassEnv → LocalIndex → Remote → Option (Result After)
unfolding run_loaded
run_evaluation env l remote = elim env.load_settings_fails [
  | some f ↦ some (err f)
  | none ↦
      let (file, loaded) = load_or_rebuild_index env remote.index_file in
      run_loaded env l (record remote { index_file = file }) loaded
]

unfoldable pub run_now : PassEnv → Option LocalIndex → Remote → Option (Result After)
unfolding run_evaluation
run_now env none remote = some (ok (untouched remote none (no_run RetentionState.no_op_fresh)))
run_now env (some l) remote = run_evaluation env l remote

unfoldable pub run_if_due : PassEnv → Option LocalIndex → Remote → Option (Result After)
unfolding run_evaluation
run_if_due env none remote = some (ok (untouched remote none (no_run RetentionState.no_op_fresh)))
run_if_due env (some l) remote =
    if is_due env.dates l.last_retention_at env.now
    then run_evaluation env l remote
    else some (ok (untouched remote none (no_run skipped_throttle)))

abbrev pub nothing_to_do : DryRun
nothing_to_do = record {
  state = DryRunState.no_op_fresh;
  total_snapshots = 0;
  would_prune = [];
  would_keep = [];
}

unfoldable pub dry_run_loaded : PassEnv → Result (Option SnapshotIndex) → Option (Result DryRun)
unfolding dry_run_of
dry_run_loaded env (err f) = some (err f)
dry_run_loaded env (ok none) = some (ok nothing_to_do)
dry_run_loaded env (ok (some index)) =
    if is_empty index.snapshots
    then some (ok nothing_to_do)
    else Option.map (λ m. ok (dry_run_of index m.chain_keep))
        (compute_keep_set env.dates index env.settings env.now)

unfoldable pub dry_run : PassEnv → Option LocalIndex → Remote → Option (Result DryRun)
unfolding dry_run_loaded
dry_run env none remote = some (ok nothing_to_do)
dry_run env (some l) remote = elim env.load_settings_fails [
  | some f ↦ some (err f)
  | none ↦ dry_run_loaded env (load_or_rebuild_index env remote.index_file).1
]
