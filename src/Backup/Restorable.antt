-- ===== src/Backup/Restorable.antt =====
-- What a consistent and synchronized state gives back: every file of the local index.
use obsidian_archivist.Restore.Complete.{load_chain_to_full_complete}
use obsidian_archivist.Restore.Chain.{materialize_vault_state_at, Loader}
use obsidian_archivist.Paths.Remote.{content_path}
use obsidian_archivist.Backup.UploadLaws.{has_blob}
use obsidian_archivist.Restore.Laws.{at}
use obsidian_archivist.Restore.Walk.{ChainFrom}
use obsidian_archivist.Backup.Consistent.{tip, has_blobs, IsConsistent}
use obsidian_archivist.Backup.Sync.{ChainFrom-of, materialize-cons, InSync, loader_of}
use obsidian_archivist.Backup.Commit.{World}
use obsidian_archivist.Model.Failure.{path_not_found, err, ok, Result}
use obsidian_archivist.Model.Manifest.{FileEntry, RenameEntry, LocalIndex, SnapshotManifest, Files}
use obsidian_archivist.Common.Text.{Text-discrete, Text}
use obsidian_archivist.Restore.Fetch.{fetch_entry, fetch_content}
use obsidian_archivist.Restore.Replay.{
  materialize, apply_deleted, apply_renames, apply_files, apply_rename, replay,
}
use obsidian_archivist.Backup.Uploads.{Blobs, Octets}
use obsidian_archivist.Common.{
  ap, ◌∙◌, sym, length, inr, refl, put, Option-cases, erase, arith, inl, true, ◌≡◌, get, Option,
  none, some, List, [], ◌∷◌,
}

get-has_blob :
    (store : Blobs) (fs : Files) (p : Text) (e : FileEntry)
    → has_blobs store fs ≡ true
    → at fs p ≡ some e
    → has_blob store e.hash ≡ true
get-has_blob store [] p e h k = absurd (ground arith)
get-has_blob store (f ∷ fs) p e h k = ground (arith, get-has_blob store fs p e)

put-has_blobs :
    (store : Blobs) (fs : Files) (p : Text) (e : FileEntry)
    → has_blobs store fs ≡ true
    → has_blob store e.hash ≡ true
    → has_blobs store (put Text-discrete fs p e) ≡ true
put-has_blobs store [] p e h k = ground arith
put-has_blobs store (f ∷ fs) p e h k = ground (arith, put-has_blobs store fs p e)

erase-has_blobs :
    (store : Blobs) (fs : Files) (p : Text)
    → has_blobs store fs ≡ true
    → has_blobs store (erase Text-discrete fs p) ≡ true
erase-has_blobs store [] p h = refl
erase-has_blobs store (f ∷ fs) p h = ground (arith, erase-has_blobs store fs p)

apply_rename-has_blobs :
    (store : Blobs) (state : Files) (r : RenameEntry)
    → has_blobs store state ≡ true
    → has_blobs store (apply_rename state r) ≡ true
unfolding apply_rename
apply_rename-has_blobs store state r h = elim (Option-cases (at state r.from)) [
  | inl e ↦ ground arith
  | inr (v, e) ↦
      let moved = put-has_blobs store state r.to v h (get-has_blob store state r.from v h e) in
      ground (arith, erase-has_blobs store (put Text-discrete state r.to v) r.from moved)
]

apply_renames-has_blobs :
    (store : Blobs) (state : Files) (rs : List RenameEntry)
    → has_blobs store state ≡ true
    → has_blobs store (apply_renames state rs) ≡ true
unfolding apply_renames
apply_renames-has_blobs store state [] h = h
apply_renames-has_blobs store state (r ∷ rs) h =
    apply_renames-has_blobs store (apply_rename state r) rs (apply_rename-has_blobs store state r h)

apply_files-has_blobs :
    (store : Blobs) (state fs : Files)
    → has_blobs store state ≡ true
    → has_blobs store fs ≡ true
    → has_blobs store (apply_files state fs) ≡ true
unfolding apply_files
apply_files-has_blobs store state [] h k = h
apply_files-has_blobs store state ((p, e) ∷ fs) h k =
    apply_files-has_blobs store (put Text-discrete state p e) fs
      (put-has_blobs store state p e h (ground arith)) (ground arith)

apply_deleted-has_blobs :
    (store : Blobs) (state : Files) (ps : List Text)
    → has_blobs store state ≡ true
    → has_blobs store (apply_deleted state ps) ≡ true
unfolding apply_deleted
apply_deleted-has_blobs store state [] h = h
apply_deleted-has_blobs store state (p ∷ ps) h =
    apply_deleted-has_blobs store (erase Text-discrete state p) ps (erase-has_blobs store state p h)

replay-has_blobs :
    (store : Blobs) (state : Files) (m : SnapshotManifest)
    → has_blobs store state ≡ true
    → has_blobs store m.files ≡ true
    → has_blobs store (replay state m) ≡ true
unfolding replay
replay-has_blobs store state m h k =
    apply_deleted-has_blobs store (apply_files (apply_renames state m.renames) m.files) m.deleted (
      apply_files-has_blobs store (apply_renames state m.renames) m.files
        (apply_renames-has_blobs store state m.renames h) k)

loader_of-get :
    (ms : List (Text × SnapshotManifest)) (c : Text) (m : SnapshotManifest)
    → loader_of ms c ≡ ok m
    → get Text-discrete ms c ≡ some m
loader_of-get ms c m h = ground arith

materialize-one : (m : SnapshotManifest) → materialize (m ∷ []) ≡ m.files
unfolding materialize
materialize-one m = refl

-- Every file that the restore of a chain gives has its blob.
materialize-has_blobs :
    (hasher : Octets → Text) (w : World) (cursor : Option Text) (chain : List SnapshotManifest)
    → IsConsistent hasher w
    → ChainFrom (loader_of w.manifests) cursor chain
    → has_blobs w.blobs (materialize chain) ≡ true
materialize-has_blobs hasher w cursor [] cons h = absurd h
materialize-has_blobs hasher w cursor (m ∷ []) cons (c, l, g, h) =
    rw (materialize-one m) (cons.backed c m (loader_of-get w.manifests c m g))
materialize-has_blobs hasher w cursor (m ∷ n ∷ ms) cons (c, l, g, inl (k, last)) =
    absurd (ground arith)
materialize-has_blobs hasher w cursor (m ∷ n ∷ ms) cons (c, l, g, inr (k, h)) =
    rw (materialize-cons m n ms) (
      replay-has_blobs w.blobs (materialize (n ∷ ms)) m
        (materialize-has_blobs hasher w m.parent_id (n ∷ ms) cons h)
        (cons.backed c m (loader_of-get w.manifests c m g)))

-- What the content path of a hash holds: its blob, or nothing.
abbrev pub blob_at : Blobs → Text → Result Octets
blob_at store h = elim (get Text-discrete store h) [ none ↦ err path_not_found | some b ↦ ok b ]

fetch_entry_lem :
    (download : Text → Result Octets) (store : Blobs) (hasher : Octets → Text)
    (m : SnapshotManifest) (e : FileEntry) (content : Text) (b : Octets)
    → content_path m.vault_prefix e.hash ≡ ok content
    → download content ≡ blob_at store e.hash
    → get Text-discrete store e.hash ≡ some b
    → hasher b ≡ e.hash
    → fetch_entry download hasher (ok m) (some e) ≡ ok b
unfolding fetch_entry
fetch_entry_lem download store hasher m e content b v d g h = ground arith

materialize_vault_state_at_lem :
    (load : Loader) (id : Text) (chain : List SnapshotManifest)
    → ChainFrom load (some id) chain
    → materialize_vault_state_at (length chain) load id ≡ some (ok (materialize chain))
unfolding materialize_vault_state_at
materialize_vault_state_at_lem load id chain h =
    rw (load_chain_to_full_complete (length chain) load id chain (omega arith) h) refl

first_loads :
    (load : Loader) (id : Text) (m : SnapshotManifest) (older : List SnapshotManifest)
    → ChainFrom load (some id) (m ∷ older)
    → load id ≡ ok m
first_loads load [] m older (c, l, g, h) = absurd (ground arith)
first_loads load (x ∷ t) m older (c, l, g, h) = ground arith

-- What is backed up can be restored: where the stored state is consistent and the local index in
-- sync, the content of every path of the local index can be fetched at the index's snapshot, if the
-- hash has a content path under the snapshot's prefix and that path downloads as the blob stored for
-- the hash; the bytes have the hash that the index has.
pub fetch_content-restores :
    (download : Text → Result Octets) (hasher : Octets → Text) (w : World) (i : LocalIndex)
    (m : SnapshotManifest) (older : List SnapshotManifest) (id path content : Text) (e : FileEntry)
    → IsConsistent hasher w
    → InSync w i (m ∷ older)
    → tip i ≡ some id
    → at i.files path ≡ some e
    → content_path m.vault_prefix e.hash ≡ ok content
    → download content ≡ blob_at w.blobs e.hash
    → (b : Octets) × (fetch_content
          (length (m ∷ older))
          (loader_of w.manifests)
          download
          hasher
          id
          path
        ≡ some (ok b))
      × (hasher b ≡ e.hash)
unfolding fetch_content
fetch_content-restores download hasher w i m older id path content e cons s t a v d =
    let load = loader_of w.manifests in
    let linked : ChainFrom load (some id) (m ∷ older) =
      ChainFrom-of w.manifests w.manifests (some id) (tip i) (m ∷ older) refl (sym t) s.linked in
    let restored : at (materialize (m ∷ older)) path ≡ some e = sym (s.agrees path) ∙ a in
    let stored =
      get-has_blob w.blobs (materialize (m ∷ older)) path e
        (materialize-has_blobs hasher w (some id) (m ∷ older) cons linked) restored in
    elim (Option-cases (get Text-discrete w.blobs e.hash)) [
      | inl g ↦ absurd (ground arith)
      | inr (b, g) ↦
          let named = cons.hashed e.hash b g in
          (
            b,
            rw
                (
                  materialize_vault_state_at_lem load id (m ∷ older) linked,
                  restored,
                  first_loads load id m older linked,
                )
                (ap (λ (r : Result Octets). some r)
                  (fetch_entry_lem download w.blobs hasher m e content b v d g named)),
            named,
          )
    ]
