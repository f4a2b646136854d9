-- ===== src/Backup/Collision.antt =====
-- Two incrementals in one minute: the ids of snapshots have minutes, and a commit overwrites.
use obsidian_archivist.Backup.Writes.{commit_snapshot-writes}
use obsidian_archivist.Backup.Sync.{loader_of-new, loader_of}
use obsidian_archivist.Backup.Consistent.{tip}
use obsidian_archivist.Backup.Commit.{commit_snapshot, World, CommitCalls, CommitArgs}
use obsidian_archivist.Common.Text.{Text-discrete, Text}
use obsidian_archivist.Paths.Stamps.{
  derive_id-is_snapshot_id, live-snapshot_id, derive_id_same_minute, read_stamp, Stamp, derive_id,
}
use obsidian_archivist.Model.Failure.{chain_broken, err, ok}
use obsidian_archivist.Model.Manifest.{LocalIndex, inc, SnapshotManifest}
use obsidian_archivist.Restore.Chain.{walk, live, Loader, load_chain_to_full}
use obsidian_archivist.Common.{put, ◌∙◌, sym, has-add, add, arith, suc, ◌≡◌, ℕ, some, List, [], ◌∷◌}

-- The second round of the walk meets the id again.
walk-seen :
    (fuel : ℕ) (load : Loader) (id : Text) (chain : List SnapshotManifest)
    → live (some id) ≡ some id
    → walk (suc fuel) load (some id) (add Text-discrete [] id) chain ≡ some (err chain_broken)
unfolding walk
walk-seen fuel load id chain named = ground (arith, has-add Text-discrete [] id id)

walk-self_parent :
    (fuel : ℕ) (load : Loader) (m : SnapshotManifest)
    → load m.id ≡ ok m
    → m.kind ≡ inc
    → m.parent_id ≡ some m.id
    → live (some m.id) ≡ some m.id
    → walk (suc (suc fuel)) load (some m.id) [] [] ≡ some (err chain_broken)
unfolding walk
walk-self_parent fuel load m l k parent named =
    ground (arith, walk-seen fuel load m.id (m ∷ []) named)

self_parent-is_broken :
    (fuel : ℕ) (load : Loader) (m : SnapshotManifest)
    → load m.id ≡ ok m
    → m.kind ≡ inc
    → m.parent_id ≡ some m.id
    → live (some m.id) ≡ some m.id
    → load_chain_to_full (suc (suc fuel)) load m.id ≡ some (err chain_broken)
unfolding load_chain_to_full
self_parent-is_broken fuel load m l k parent named =
    ground (arith, walk-self_parent fuel load m l k parent named)

-- Two timestamps with the same minute give incrementals the same id; and if an incremental whose id
-- is that of the snapshot it is attached to is committed, the commit replaces that snapshot's
-- manifest by one that is its own parent, and no restore of it works: the walk to a full snapshot
-- finds the chain broken, whatever was stored before.
pub same_minute_breaks :
    (args : CommitArgs) (calls : CommitCalls) (w : World) (i : LocalIndex) (fuel : ℕ)
    (earlier later before rest : Text) (s : Stamp)
    → read_stamp 58 earlier ≡ some (s, before)
    → read_stamp 58 later ≡ some (s, rest)
    → tip i ≡ derive_id earlier inc
    → some args.manifest.id ≡ derive_id later inc
    → args.manifest.kind ≡ inc
    → args.manifest.parent_id ≡ tip i
    → (commit_snapshot args calls w).1 ≡ ok tt
    → load_chain_to_full
        (suc (suc fuel))
        (loader_of (commit_snapshot args calls w).0.manifests)
        args.manifest.id
      ≡ some (err chain_broken)
same_minute_breaks args calls w i fuel earlier later before rest s h1 h2 d1 d2 k parent e =
    let m = args.manifest in
    let same_id = derive_id_same_minute earlier later before rest s inc h1 h2 in
    let named = live-snapshot_id m.id (derive_id-is_snapshot_id later m.id inc (sym d2)) in
    let (manifests, local) = commit_snapshot-writes args calls w e in
    let own_parent : m.parent_id ≡ some m.id = parent ∙ d1 ∙ same_id ∙ sym d2 in
    rw manifests (
      self_parent-is_broken fuel (loader_of (put Text-discrete w.manifests m.id m)) m
        (loader_of-new w.manifests m) k own_parent named)
