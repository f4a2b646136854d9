-- ===== src/Examples/Retaining.antt =====
-- The retention of snapshots at concrete inputs.
use obsidian_archivist.Backup.LocalIndex.{empty_local_index}
use obsidian_archivist.Retention.Passes.{dry_run-agrees, reported}
use obsidian_archivist.Model.Manifest.{LocalIndex}
use obsidian_archivist.Model.Failure.{ok}
use obsidian_archivist.Retention.Pass.{
  load_or_rebuild_index, run_loaded, PassEnv, dry_run_loaded, After, run_evaluation, run_now,
  run_if_due, dry_run,
}
use obsidian_archivist.Retention.Service.{
  compute_keep_set, dry_run_of, DryRun, RetentionState, DryRunState,
}
use obsidian_archivist.Retention.Pruning.{prune_keeps_chains}
use obsidian_archivist.Common.Text.{less, same, Text-discrete, Text}
use obsidian_archivist.Store.Index.{read, remove, valid}
use obsidian_archivist.Retention.Service.{
  chain_snapshot, prune_one, prune_all, Remote, Outcomes, prune_snapshots,
}
use obsidian_archivist.Retention.Floor.{always_keep_n_floor, as_new, All}
use obsidian_archivist.Retention.Tiers.{
  insert_newer, apply_monthly, apply_daily, apply_recent_hours, apply_never_prune,
  apply_always_keep_n, Snapshots, ms_per_day, is_within, evaluate_tiers, sort_newest,
  RetentionSettings,
}
use obsidian_archivist.Retention.Ancestors.{
  links_from, links_of, climb, climb_all, Marked, ChainSnapshot, augment_with_ancestors,
}
use obsidian_archivist.Retention.Dates.{local_date_key, Dates}
use obsidian_archivist.Common.{
  none, refl, ◌*◌, any, has, arith, min, filter, ◌+◌, map, ◌/◌, ◌≡◌, true, take, some, List, [],
  ◌∷◌,
}
use obsidian_archivist.Examples.Collecting.{one, the_index, minutes, online}
use obsidian_archivist.Retention.Buckets.{daily_covers, CoveredBy}

abbrev dates : Dates
dates = record {
  time_of = minutes;
  local_fields = λ t. record { year = 2026; month = 3; day = t / 86400000 + 1 };
}

abbrev settings : RetentionSettings
settings = record {
  always_keep_n = 2;
  never_prune_window_days = 0;
  recent_hours = 0;
  daily_days = 30;
  monthly_years = 1;
}

daily_covers_example :
    let window =
      filter (is_within dates 6000000 (settings.daily_days * ms_per_day)) the_index.snapshots in
    All
      (CoveredBy
        (λ s. local_date_key dates s.created_at)
        window
        (evaluate_tiers dates the_index.snapshots settings 6000000))
      window
daily_covers_example = daily_covers dates the_index.snapshots settings 6000000 (ground arith)

always_keep_n_floor_example :
    let top = take 2 (sort_newest the_index.snapshots []) in
    (as_new (one 50) top ≡ min 2 (as_new (one 50) the_index.snapshots))
    × ((x : Text)
        → any (λ s. same s.id x) top ≡ true
        → has Text-discrete (evaluate_tiers dates the_index.snapshots settings 6000000) x ≡ true)
always_keep_n_floor_example =
    always_keep_n_floor dates the_index.snapshots settings 6000000 (one 50)

abbrev chain : List ChainSnapshot
chain = map chain_snapshot the_index.snapshots

abbrev kept : Marked
kept = record { chain_keep = one 51 ∷ one 50 ∷ []; warned_orphans = [] }

abbrev outcomes : Outcomes
outcomes = record { delete_ok = λ id. true; remove_net = λ id. online }

abbrev remote : Remote
remote = record { manifests = one 50 ∷ one 51 ∷ one 52 ∷ []; index_file = some (valid the_index) }

prune_keeps_chains_example :
    has Text-discrete
      (prune_snapshots outcomes the_index kept.chain_keep remote).remote.manifests
      (one 50)
    ≡ true
unfolding augment_with_ancestors climb_all climb links_of links_from Text-discrete
prune_keeps_chains_example =
    prune_keeps_chains 4 (one 51 ∷ []) chain kept outcomes the_index remote (one 51) (one 50) refl
      refl refl refl refl refl

prune_test :
    (prune_snapshots outcomes the_index kept.chain_keep remote).remote.manifests
    ≡ one 50 ∷ one 51 ∷ []
unfolding prune_snapshots prune_all prune_one remove Text-discrete
prune_test = refl

abbrev drop_first : Snapshots → Snapshots
drop_first [] = []
drop_first (s ∷ ss) = ss

abbrev pass_env : PassEnv
pass_env = record {
  dates = dates;
  now = 6000000;
  now_iso = one 100;
  settings = record settings { always_keep_n = 1; daily_days = 0; monthly_years = 0 };
  read_net = online;
  rebuild_net = online;
  reread_net = online;
  listed_manifests = ok [];
  outcomes = record outcomes { delete_ok = λ id. same id (one 50) };
  load_settings_fails = none;
  save_index_fails = none;
}

abbrev local : LocalIndex
local = empty_local_index

-- The older full is pruned, and the delete of the incremental fails.
abbrev passed : After
passed = record {
  saved_index = some (record local { last_retention_at = some (one 100) });
  remote = record {
    manifests = one 51 ∷ one 52 ∷ [];
    index_file =
        some
          (valid (record { last_updated_at = one 61; snapshots = drop_first the_index.snapshots }));
  };
  cache_invalidated = true;
  gc_triggered = true;
  result = record {
    ran = true;
    pruned_ids = one 50 ∷ [];
    failed_deletes = one 51 ∷ [];
    state = RetentionState.pruned;
  };
}

pass_test : run_now pass_env (some local) remote ≡ some (ok passed)
unfolding run_now run_evaluation run_loaded load_or_rebuild_index read compute_keep_set
    evaluate_tiers apply_always_keep_n apply_never_prune apply_recent_hours apply_daily
    apply_monthly sort_newest insert_newer less augment_with_ancestors climb_all climb links_of
    links_from prune_snapshots prune_all prune_one remove Text-discrete
pass_test = refl

abbrev announced : DryRun
announced = record {
  state = DryRunState.evaluated;
  total_snapshots = 3;
  would_prune = take 2 the_index.snapshots;
  would_keep = drop_first (drop_first the_index.snapshots);
}

dry_run_test : dry_run pass_env (some local) remote ≡ some (ok announced)
unfolding dry_run dry_run_loaded dry_run_of load_or_rebuild_index read compute_keep_set
    evaluate_tiers apply_always_keep_n apply_never_prune apply_recent_hours apply_daily
    apply_monthly sort_newest insert_newer less augment_with_ancestors climb_all climb links_of
    links_from Text-discrete
dry_run_test = refl

dry_run-agrees_example :
    reported passed.result.pruned_ids passed.result.failed_deletes (one 51)
    ≡ any (λ s. same s.id (one 51)) announced.would_prune
dry_run-agrees_example =
    dry_run-agrees pass_env local remote passed announced (one 51) pass_test dry_run_test

abbrev next_env : PassEnv
next_env = record pass_env { now = 80000000; now_iso = one 1333 }

due_test : run_if_due pass_env (some local) remote ≡ run_now pass_env (some local) remote
unfolding run_if_due run_now
due_test = refl
