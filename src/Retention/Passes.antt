-- ===== src/Retention/Passes.antt =====
-- Whole retention passes: the dry run against the pass, and the throttle.
use obsidian_archivist.Model.Failure.{err, ok, Result}
use obsidian_archivist.Retention.Pass.{
  dry_run_loaded, is_empty, run_loaded, no_run, untouched, load_or_rebuild_index, stamped, After,
  dry_run, run_if_due, run_evaluation, run_now, PassEnv,
}
use obsidian_archivist.Retention.Floor.{has-ids_of}
use obsidian_archivist.Model.Manifest.{LocalIndex, SnapshotIndex}
use obsidian_archivist.Retention.Tiers.{ids_of, Snapshots}
use obsidian_archivist.Retention.Service.{
  compute_keep_set, skipped_throttle, retention_interval_ms, DryRun, prune_ids, Remote, Pruned,
  dry_run_of, Outcomes, prune_all, prune_one, prune_snapshots,
}
use obsidian_archivist.Common.Text.{same, Text-discrete, Text}
use obsidian_archivist.Common.{
  Option-cases, refl, false, ◌⊎◌, none, ◌+◌, ◌<◌, true, some, Option, inr, eqb_iff, ap, inl,
  Bool-cases, ◌&&◌, has-filter, not, has-append, filter, arith, ◌||◌, ◌≡◌, any, has, Bool, List, [],
  ◌∷◌,
}

-- What a pass reports of the ids that it tries: each as pruned or as failed.
abbrev pub reported : List Text → List Text → Text → Bool
reported done failed x = has Text-discrete done x || has Text-discrete failed x

prune_one-reported :
    (out : Outcomes) (id : Text) (p : Pruned) (x : Text)
    → let q = prune_one out id p in
      reported q.pruned q.failed x ≡ (reported p.pruned p.failed x || same id x)
unfolding prune_one
prune_one-reported out id p x = ground (
  arith,
  has-append Text-discrete p.pruned (id ∷ []) x,
  has-append Text-discrete p.failed (id ∷ []) x,
)

prune_all-reported :
    (out : Outcomes) (ids : List Text) (p : Pruned) (x : Text)
    → let q = prune_all out ids p in
      reported q.pruned q.failed x ≡ (reported p.pruned p.failed x || has Text-discrete ids x)
unfolding prune_all
prune_all-reported out [] p x = ground arith
prune_all-reported out (id ∷ ids) p x =
    ground (arith, prune_all-reported out ids (prune_one out id p) x, prune_one-reported out id p x)

any-would_prune :
    (keep : List Text) (ss : Snapshots) (x : Text)
    → any (λ s. same s.id x) (filter (λ s. not (has Text-discrete keep s.id)) ss)
      ≡ (not (has Text-discrete keep x) && any (λ s. same s.id x) ss)
any-would_prune keep [] x = ground arith
any-would_prune keep (s ∷ ss) x = elim (Bool-cases (same s.id x)) [
  | inl e ↦
      (let here = ap (λ i. has Text-discrete keep i) ((eqb_iff Text-discrete s.id x).0 e) in
        ground (arith, any-would_prune keep ss x, here))
  | inr e ↦ ground (arith, any-would_prune keep ss x)
]

prune_snapshots-reported :
    (out : Outcomes) (index : SnapshotIndex) (keep : List Text) (remote : Remote) (x : Text)
    → let p = prune_snapshots out index keep remote in
      reported p.pruned p.failed x ≡ any (λ s. same s.id x) (dry_run_of index keep).would_prune
unfolding prune_snapshots dry_run_of
prune_snapshots-reported out index keep remote x = ground (
  arith,
  prune_all-reported out (prune_ids index keep)
      (record { remote = remote; pruned = []; failed = [] }) x,
  has-filter Text-discrete (λ id. not (has Text-discrete keep id)) (ids_of index.snapshots) x,
  has-ids_of index.snapshots x,
  any-would_prune keep index.snapshots x,
)

List-cases {ℓ} :
    {A : Type ℓ} (xs : List A) → (xs ≡ []) ⊎ ((a : A) × (rest : List A) × (xs ≡ a ∷ rest))
List-cases [] = inl refl
List-cases (a ∷ rest) = inr (a, rest, refl)

empty_would_prune :
    (index : SnapshotIndex) (keep : List Text) (x : Text)
    → is_empty index.snapshots ≡ true
    → any (λ s. same s.id x) (dry_run_of index keep).would_prune ≡ false
unfolding dry_run_of
empty_would_prune index keep x e = elim (List-cases index.snapshots) [
  | inl h ↦ ground arith
  | inr (s, ss, h) ↦ absurd (ground arith)
]

loaded_agree :
    (env : PassEnv) (l : LocalIndex) (remote : Remote) (loaded : Result (Option SnapshotIndex))
    (a : After) (d : DryRun) (x : Text)
    → run_loaded env l remote loaded ≡ some (ok a)
    → dry_run_loaded env loaded ≡ some (ok d)
    → reported a.result.pruned_ids a.result.failed_deletes x ≡ any (λ s. same s.id x) d.would_prune
unfolding run_loaded dry_run_loaded
loaded_agree env l remote (err f) a d x h k = absurd (ground arith)
loaded_agree env l remote (ok none) a d x h k = ground arith
loaded_agree env l remote (ok (some index)) a d x h k =
    elim (Option-cases (compute_keep_set env.dates index env.settings env.now)) [
      | inl e ↦ absurd (ground arith)
      | inr (m, e) ↦ ground (
        arith,
        prune_snapshots-reported env.outcomes index m.chain_keep remote x,
        empty_would_prune index m.chain_keep x,
      )
    ]

-- The dry run tells what a pass does: on the same inputs, where both return, the ids that the pass
-- reports as pruned or as failed are exactly the ids of the rows that the dry run would prune.
pub dry_run-agrees :
    (env : PassEnv) (l : LocalIndex) (remote : Remote) (a : After) (d : DryRun) (x : Text)
    → run_now env (some l) remote ≡ some (ok a)
    → dry_run env (some l) remote ≡ some (ok d)
    → reported a.result.pruned_ids a.result.failed_deletes x ≡ any (λ s. same s.id x) d.would_prune
unfolding run_now run_evaluation dry_run
dry_run-agrees env l remote a d x h k =
    let (file, loaded) = load_or_rebuild_index env remote.index_file in
    elim (Option-cases env.load_settings_fails) [
      | inr (f, e) ↦ absurd (ground arith)
      | inl e ↦
          loaded_agree env l (record remote { index_file = file }) loaded a d x (ground arith)
            (ground arith)
    ]

loaded_saved :
    (env : PassEnv) (l : LocalIndex) (remote : Remote) (loaded : Result (Option SnapshotIndex))
    (a : After)
    → run_loaded env l remote loaded ≡ some (ok a)
    → a.saved_index ≡ some (stamped env l)
unfolding run_loaded
loaded_saved env l remote (err f) a h = absurd (ground arith)
loaded_saved env l remote (ok none) a h = ground arith
loaded_saved env l remote (ok (some index)) a h =
    elim (Option-cases (compute_keep_set env.dates index env.settings env.now)) [
      | inl e ↦ absurd (ground arith)
      | inr (m, e) ↦ ground arith
    ]

evaluation_saved :
    (env : PassEnv) (l : LocalIndex) (remote : Remote) (a : After)
    → run_evaluation env l remote ≡ some (ok a)
    → a.saved_index ≡ some (stamped env l)
unfolding run_evaluation
evaluation_saved env l remote a h =
    let (file, loaded) = load_or_rebuild_index env remote.index_file in
    elim (Option-cases env.load_settings_fails) [
      | inr (f, e) ↦ absurd (ground arith)
      | inl e ↦ loaded_saved env l (record remote { index_file = file }) loaded a (ground arith)
    ]

-- A pass that ran is not run again within a day: with the time that it saved, a call less than a
-- day later is throttled and changes nothing.
pub run_if_due_once :
    (first second : PassEnv) (l : Option LocalIndex) (remote later : Remote) (a : After)
    → run_if_due first l remote ≡ some (ok a)
    → a.result.ran ≡ true
    → second.dates.time_of first.now_iso ≡ some first.now
    → second.now < first.now + retention_interval_ms
    → run_if_due second a.saved_index later
      ≡ some (ok (untouched later none (no_run skipped_throttle)))
unfolding run_if_due
run_if_due_once first second none remote later a h r t w = absurd (ground arith)
run_if_due_once first second (some l) remote later a h r t w =
    ground (arith, evaluation_saved first l remote a)
