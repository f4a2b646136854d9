-- ===== src/Backup/Sync.antt =====
-- The local index against the state that a restore of its snapshot reconstructs, over commits.
use obsidian_archivist.Backup.Stages.{tip-save_local_index}
use obsidian_archivist.Backup.Writes.{commit_snapshot-writes}
use mathlib.Core.List.{reverse-cons}
use obsidian_archivist.Backup.Agreement.{files_after-eq-replay, Disjoint, Settled}
use obsidian_archivist.Backup.LocalIndex.{files_after, save_local_index}
use obsidian_archivist.Restore.Replay.{from_oldest, replay_all, replay, materialize}
use obsidian_archivist.Restore.Laws.{at}
use obsidian_archivist.Backup.Consistent.{tip}
use obsidian_archivist.Model.Failure.{path_not_found, err, ok}
use obsidian_archivist.Restore.Walk.{ChainFrom}
use obsidian_archivist.Model.Manifest.{inc, full, Files, LocalIndex, SnapshotManifest}
use obsidian_archivist.Restore.Chain.{live, Loader}
use obsidian_archivist.Common.Text.{Text-discrete, Text}
use obsidian_archivist.Backup.Commit.{commit_snapshot, CommitCalls, CommitArgs, World}
use obsidian_archivist.Common.{
  ◌∙◌, sym, reverse, refl, get-put, ◌++◌, arith, ◌≢◌, put, inr, inl, ◌≡◌, get, Option, none, some,
  List, [], ◌∷◌,
}

-- `downloadManifest`: what an id loads as.
abbrev pub loader_of : List (Text × SnapshotManifest) → Loader
loader_of ms id = elim (get Text-discrete ms id) [ none ↦ err path_not_found | some m ↦ ok m ]

-- The local index's snapshot starts a chain of stored manifests, and every path has the same entry in
-- the index and in the state that the chain gives.
pub record InSync (w : World) (i : LocalIndex) (chain : List SnapshotManifest) : Type 0 where
  pub saved : w.local_index ≡ some i
  pub linked : ChainFrom (loader_of w.manifests) (tip i) chain
  pub agrees : (p : Text) → at i.files p ≡ at (materialize chain) p

ChainFrom-mono :
    (load after : Loader) (cursor : Option Text) (chain : List SnapshotManifest)
    → ((c : Text) (m : SnapshotManifest) → load c ≡ ok m → after c ≡ ok m)
    → ChainFrom load cursor chain
    → ChainFrom after cursor chain
ChainFrom-mono load after cursor [] mono h = absurd h
ChainFrom-mono load after cursor (m ∷ ms) mono (c, l, g, inl last) = (c, l, mono c m g, inl last)
ChainFrom-mono load after cursor (m ∷ ms) mono (c, l, g, inr (k, h)) =
    (c, l, mono c m g, inr (k, ChainFrom-mono load after m.parent_id ms mono h))

pub ChainFrom-of :
    (ns ms : List (Text × SnapshotManifest)) (a b : Option Text) (chain : List SnapshotManifest)
    → ns ≡ ms
    → a ≡ b
    → ChainFrom (loader_of ms) b chain
    → ChainFrom (loader_of ns) a chain
ChainFrom-of ns ms a b chain same_manifests same_cursor h = rw (same_manifests, same_cursor) h

loader_of-put :
    (ms : List (Text × SnapshotManifest)) (m : SnapshotManifest) (c : Text) (n : SnapshotManifest)
    → get Text-discrete ms m.id ≡ none
    → loader_of ms c ≡ ok n
    → loader_of (put Text-discrete ms m.id m) c ≡ ok n
loader_of-put ms m c n fresh l = ground (arith, get-put Text-discrete ms m.id c m)

pub loader_of-new :
    (ms : List (Text × SnapshotManifest)) (m : SnapshotManifest)
    → loader_of (put Text-discrete ms m.id m) m.id ≡ ok m
loader_of-new ms m = ground (arith, get-put Text-discrete ms m.id m.id m)

replay_all-append :
    (state : Files) (ms : List SnapshotManifest) (m : SnapshotManifest)
    → replay_all state (ms ++ m ∷ []) ≡ replay (replay_all state ms) m
unfolding replay_all
replay_all-append state [] m = refl
replay_all-append state (n ∷ ms) m = replay_all-append (replay state n) ms m

from_oldest-append :
    (ms : List SnapshotManifest) (m : SnapshotManifest)
    → ms ≢ []
    → from_oldest (ms ++ m ∷ []) ≡ replay (from_oldest ms) m
from_oldest-append [] m h = absurd (h refl)
from_oldest-append (n ∷ ms) m h = replay_all-append n.files ms m

snoc-nonempty : (ms : List SnapshotManifest) (n : SnapshotManifest) → (ms ++ n ∷ []) ≢ []
snoc-nonempty [] n e = absurd (ground arith)
snoc-nonempty (m ∷ ms) n e = absurd (ground arith)

reverse-nonempty : (n : SnapshotManifest) (ms : List SnapshotManifest) → reverse (n ∷ ms) ≢ []
reverse-nonempty n ms e = snoc-nonempty (reverse ms) n (sym (reverse-cons n ms) ∙ e)

-- A restore of a longer chain replays the newest manifest on the state of the rest.
pub materialize-cons :
    (m n : SnapshotManifest) (ms : List SnapshotManifest)
    → materialize (m ∷ n ∷ ms) ≡ replay (materialize (n ∷ ms)) m
unfolding materialize
materialize-cons m n ms =
    rw (reverse-cons m (n ∷ ms)) (from_oldest-append (reverse (n ∷ ms)) m (reverse-nonempty n ms))

save_local_index_full :
    (existing : Option LocalIndex) (m : SnapshotManifest) (committed_at : Text)
    → m.kind ≡ full
    → (save_local_index existing m committed_at).files ≡ m.files
unfolding save_local_index
save_local_index_full existing m committed_at k = ground arith

save_local_index_inc :
    (i : LocalIndex) (m : SnapshotManifest) (committed_at : Text)
    → m.kind ≡ inc
    → (save_local_index (some i) m committed_at).files ≡ files_after m i.files
unfolding save_local_index
save_local_index_inc i m committed_at k = ground arith

-- A full commit that goes through puts the index in sync, whatever it was before: the restore of the
-- new snapshot gives every path the entry that the local index has.
pub commit_full-InSync :
    (args : CommitArgs) (calls : CommitCalls) (w : World)
    → args.manifest.kind ≡ full
    → live (some args.manifest.id) ≡ some args.manifest.id
    → (commit_snapshot args calls w).1 ≡ ok tt
    → InSync
        (commit_snapshot args calls w).0
        (save_local_index w.local_index args.manifest calls.committed_at)
        (args.manifest ∷ [])
unfolding materialize
commit_full-InSync args calls w k named e =
    let m = args.manifest in
    let (manifests, local) = commit_snapshot-writes args calls w e in
    record {
      saved = local;
      linked =
          rw (manifests, tip-save_local_index w.local_index m calls.committed_at)
            (m.id, named, loader_of-new w.manifests m, inl (k, refl));
      agrees = λ p. rw (save_local_index_full w.local_index m calls.committed_at k) refl;
    }

-- An incremental commit that goes through keeps the index in sync with what a restore gives: if the
-- local index agrees with the chain of its snapshot, the new manifest names that snapshot as its
-- parent and has an id that is not taken, its renames are settled and no path is both changed and
-- deleted, then the saved index agrees with the chain of the new snapshot.
pub commit_inc-InSync :
    (args : CommitArgs) (calls : CommitCalls) (w : World) (i : LocalIndex)
    (chain : List SnapshotManifest)
    → InSync w i chain
    → args.manifest.kind ≡ inc
    → args.manifest.parent_id ≡ tip i
    → live (some args.manifest.id) ≡ some args.manifest.id
    → get Text-discrete w.manifests args.manifest.id ≡ none
    → Settled args.manifest.files (materialize chain) args.manifest.renames
    → Disjoint args.manifest
    → (commit_snapshot args calls w).1 ≡ ok tt
    → InSync
        (commit_snapshot args calls w).0
        (save_local_index w.local_index args.manifest calls.committed_at)
        (args.manifest ∷ chain)
commit_inc-InSync args calls w i [] s k parent named fresh settled disjoint e = absurd s.linked
commit_inc-InSync args calls w i (n ∷ chain) s k parent named fresh settled disjoint e =
    let m = args.manifest in
    let (manifests, local) = commit_snapshot-writes args calls w e in
    let ms = put Text-discrete w.manifests m.id m in
    let older =
      ChainFrom-mono (loader_of w.manifests) (loader_of ms) (tip i) (n ∷ chain)
        (λ c o l. loader_of-put w.manifests m c o fresh l) s.linked in
    let linked : ChainFrom (loader_of ms) (some m.id) (m ∷ n ∷ chain) = (
      m.id,
      named,
      loader_of-new w.manifests m,
      inr (k, ChainFrom-of ms ms m.parent_id (tip i) (n ∷ chain) refl parent older),
    ) in
    record {
      saved = local;
      linked =
          ChainFrom-of (commit_snapshot args calls w).0.manifests ms
            (tip (save_local_index w.local_index m calls.committed_at)) (some m.id) (m ∷ n ∷ chain)
            manifests (tip-save_local_index w.local_index m calls.committed_at) linked;
      agrees = λ p.
          rw (s.saved, save_local_index_inc i m calls.committed_at k, materialize-cons m n chain)
            (files_after-eq-replay m (materialize (n ∷ chain)) i.files settled disjoint
              (λ q. sym (s.agrees q)) p);
    }
