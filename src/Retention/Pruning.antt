-- ===== src/Retention/Pruning.antt =====
-- What a retention pass does to the manifests and the rows of the index.
use obsidian_archivist.Retention.Chains.{augment_with_ancestors_closed}
use obsidian_archivist.Retention.Tiers.{ids_of}
use obsidian_archivist.Retention.Ancestors.{
  is_known, parent_of, links_of, is_full_id, augment_with_ancestors, Marked, ChainSnapshot,
}
use obsidian_archivist.Model.Manifest.{SnapshotIndex, SnapshotIndexEntry}
use obsidian_archivist.Store.Index.{corrupt, valid, rows, IndexFile, without, Net, read, remove}
use obsidian_archivist.Common.Text.{same, Text-discrete, Text}
use obsidian_archivist.Retention.Service.{
  prune_ids, Remote, prune_snapshots, Pruned, Outcomes, prune_all, prune_one,
}
use obsidian_archivist.Common.{
  sym, length-append, ap, has-append, ◌+◌, length, ℕ, ◌∙◌, true, has-filter, false, refl, ◌⊎◌, has,
  arith, not, ◌≡◌, filter, none, some, List, [], ◌∷◌,
}

-- The rows whose id is not among the given.
abbrev pub rows_off : List Text → List SnapshotIndexEntry → List SnapshotIndexEntry
rows_off ids = filter (λ s. not (has Text-discrete ids s.id))

remove-rows_cases :
    (net : Net) (id : Text) (file : IndexFile)
    → (rows (remove net id file).0 ≡ rows file)
      ⊎ (rows (remove net id file).0 ≡ without id (rows file))
unfolding remove read
remove-rows_cases net id none = ground arith
remove-rows_cases net id (some corrupt) = ground arith
remove-rows_cases net id (some (valid i)) = ground arith

rows_off-without :
    (id : Text) (ids : List Text) (ss : List SnapshotIndexEntry)
    → rows_off (id ∷ ids) (without id ss) ≡ rows_off (id ∷ ids) ss
rows_off-without id ids [] = refl
rows_off-without id ids (s ∷ ss) = ground (arith, rows_off-without id ids ss)

rows_off-split :
    (id : Text) (ids : List Text) (ss : List SnapshotIndexEntry)
    → rows_off (id ∷ ids) ss ≡ without id (rows_off ids ss)
rows_off-split id ids [] = refl
rows_off-split id ids (s ∷ ss) = ground (arith, rows_off-split id ids ss)

rows_off-cons :
    (id : Text) (ids : List Text) (ss ts : List SnapshotIndexEntry)
    → rows_off ids ss ≡ rows_off ids ts
    → rows_off (id ∷ ids) ss ≡ rows_off (id ∷ ids) ts
rows_off-cons id ids ss ts h =
    rows_off-split id ids ss ∙ ap (without id) h ∙ sym (rows_off-split id ids ts)

prune_one-rows :
    (out : Outcomes) (id : Text) (ids : List Text) (p : Pruned)
    → rows_off (id ∷ ids) (rows (prune_one out id p).remote.index_file)
      ≡ rows_off (id ∷ ids) (rows p.remote.index_file)
unfolding prune_one
prune_one-rows out id ids p = ground (
  arith,
  remove-rows_cases (out.remove_net id) id p.remote.index_file,
  rows_off-without id ids (rows p.remote.index_file),
)

prune_all-manifests :
    (out : Outcomes) (ids : List Text) (p : Pruned) (x : Text)
    → has Text-discrete ids x ≡ false
    → has Text-discrete (prune_all out ids p).remote.manifests x
      ≡ has Text-discrete p.remote.manifests x
unfolding prune_all prune_one
prune_all-manifests out [] p x h = refl
prune_all-manifests out (id ∷ ids) p x h = ground (
  arith,
  prune_all-manifests out ids (prune_one out id p) x,
  has-filter Text-discrete (λ (j : Text). not (same j id)) p.remote.manifests x,
)

prune_all-rows :
    (out : Outcomes) (ids : List Text) (p : Pruned)
    → rows_off ids (rows (prune_all out ids p).remote.index_file)
      ≡ rows_off ids (rows p.remote.index_file)
unfolding prune_all
prune_all-rows out [] p = refl
prune_all-rows out (id ∷ ids) p =
    rows_off-cons id ids (rows (prune_all out ids (prune_one out id p)).remote.index_file)
      (rows (prune_one out id p).remote.index_file) (prune_all-rows out ids (prune_one out id p))
    ∙ prune_one-rows out id ids p

prune_all-gone :
    (out : Outcomes) (ids : List Text) (p : Pruned) (x : Text)
    → has Text-discrete p.remote.manifests x ≡ false
    → has Text-discrete (prune_all out ids p).remote.manifests x ≡ false
unfolding prune_all prune_one
prune_all-gone out [] p x h = h
prune_all-gone out (id ∷ ids) p x h = ground (
  arith,
  prune_all-gone out ids (prune_one out id p) x,
  has-filter Text-discrete (λ (j : Text). not (same j id)) p.remote.manifests x,
)

-- Where every id reported so far is gone, so it is at the end.
prune_all-pruned :
    (out : Outcomes) (ids : List Text) (p : Pruned) (x : Text)
    → (has Text-discrete p.pruned x ≡ true → has Text-discrete p.remote.manifests x ≡ false)
    → has Text-discrete (prune_all out ids p).pruned x ≡ true
    → has Text-discrete (prune_all out ids p).remote.manifests x ≡ false
unfolding prune_all prune_one
prune_all-pruned out [] p x h k = h k
prune_all-pruned out (id ∷ ids) p x h k =
    let q = prune_one out id p in
    prune_all-pruned out ids q x
      (λ m. ground (
        arith,
        h,
        has-append Text-discrete p.pruned (id ∷ []) x,
        has-filter Text-discrete (λ (j : Text). not (same j id)) p.remote.manifests x,
      ))
      k

prune_all-counts :
    (out : Outcomes) (ids : List Text) (p : Pruned)
    → let q = prune_all out ids p in
      length q.pruned + length q.failed ≡ length p.pruned + length p.failed + length ids
unfolding prune_all prune_one
prune_all-counts out [] p = omega arith
prune_all-counts out (id ∷ ids) p = ground (
  arith,
  prune_all-counts out ids (prune_one out id p),
  length-append p.pruned (id ∷ []),
  length-append p.failed (id ∷ []),
)

-- A pass deletes only what the keep set does not hold, whichever deletes fail: a kept id has its
-- manifest afterwards if it had it before, and the rows of all ids that are not to be pruned stand
-- as they stood, in order. What is reported as pruned has no manifest left, and each id to be
-- pruned is reported once, as pruned or as failed.
pub prune_snapshots_lem :
    (out : Outcomes) (index : SnapshotIndex) (keep : List Text) (remote : Remote)
    → let p = prune_snapshots out index keep remote in
      let ids = prune_ids index keep in
      ((x : Text)
        → has Text-discrete keep x ≡ true
        → has Text-discrete p.remote.manifests x ≡ has Text-discrete remote.manifests x)
      × (rows_off ids (rows p.remote.index_file) ≡ rows_off ids (rows remote.index_file))
      × ((x : Text)
          → has Text-discrete p.pruned x ≡ true
          → has Text-discrete p.remote.manifests x ≡ false)
      × (length p.pruned + length p.failed ≡ length ids)
unfolding prune_snapshots
prune_snapshots_lem out index keep remote =
    let ids = prune_ids index keep in
    let start : Pruned = record { remote = remote; pruned = []; failed = [] } in
    (
      (λ x k. prune_all-manifests out ids start x (
          ground (
            arith,
            has-filter Text-discrete (λ (id : Text). not (has Text-discrete keep id))
                (ids_of index.snapshots) x,
          ))),
      prune_all-rows out ids start,
      (λ x k. prune_all-pruned out ids start x (λ m. absurd (ground arith)) k),
      omega (arith, prune_all-counts out ids start),
    )

-- No chain breaks: after a pass with the keep set of the augmentation, a kept snapshot that is not
-- full and whose parent is among the snapshots has the manifest of its parent, if it had it before.
pub prune_keeps_chains :
    (fuel : ℕ) (tier_kept : List Text) (ss : List ChainSnapshot) (r : Marked) (out : Outcomes)
    (index : SnapshotIndex) (remote : Remote) (x parent : Text)
    → augment_with_ancestors fuel tier_kept ss ≡ some r
    → has Text-discrete r.chain_keep x ≡ true
    → is_full_id (links_of ss) x ≡ false
    → parent_of (links_of ss) x ≡ some parent
    → is_known (links_of ss) parent ≡ true
    → has Text-discrete remote.manifests parent ≡ true
    → has Text-discrete (prune_snapshots out index r.chain_keep remote).remote.manifests parent
      ≡ true
prune_keeps_chains fuel tier_kept ss r out index remote x parent e k f p u m = ground (
  arith,
  augment_with_ancestors_closed fuel tier_kept ss r e x k,
  (prune_snapshots_lem out index r.chain_keep remote).0 parent,
)
