-- ===== src/Backup/Consistent.antt =====
-- What holds of the stored state between any two steps of a commit, and the rule for a sequence of
-- steps.
use obsidian_archivist.Store.Index.{rows}
use obsidian_archivist.Model.Failure.{err, ok, Result}
use obsidian_archivist.Backup.UploadLaws.{Hashed, has_blob}
use obsidian_archivist.Backup.Commit.{and_then, ◌>>◌, Step, World}
use obsidian_archivist.Common.Text.{same, Text-discrete, Text}
use obsidian_archivist.Model.Manifest.{
  FileEntry, SnapshotIndexEntry, Files, SnapshotManifest, LocalIndex,
}
use obsidian_archivist.Backup.Uploads.{Octets, Blobs}
use obsidian_archivist.Startup.Report.{not_a_head, no_head, head, HeadFile}
use obsidian_archivist.Common.{
  eqb_iff, ◌||◌, refl, get-put, arith, get, all, put, true, ◌≡◌, is_some, Bool, Option, none, some,
  List, [], ◌∷◌,
}

abbrev pub has_manifest : List (Text × SnapshotManifest) → Text → Bool
has_manifest ms id = is_some (get Text-discrete ms id)

-- Every file of a manifest has its blob.
abbrev pub has_blobs : Blobs → Files → Bool
has_blobs store fs = all (λ (f : Text × FileEntry). has_blob store f.1.hash) fs

abbrev pub have_manifests : List (Text × SnapshotManifest) → List SnapshotIndexEntry → Bool
have_manifests ms rs = all (λ (s : SnapshotIndexEntry). has_manifest ms s.id) rs

-- The snapshot to which the next incremental is attached.
abbrev pub first_of : Option Text → Option Text → Option Text
first_of none b = b
first_of (some a) b = some a

abbrev pub tip : LocalIndex → Option Text
tip i = first_of i.last_inc_snapshot_id i.last_full_snapshot_id

-- A reference to a snapshot, where there is one, is to a stored manifest.
abbrev pub is_known : List (Text × SnapshotManifest) → Option Text → Bool
is_known ms none = true
is_known ms (some id) = has_manifest ms id

abbrev pub head_id : HeadFile → Option Text
head_id no_head = none
head_id not_a_head = none
head_id (head h) = some h.snapshot_id

abbrev pub index_tip : Option LocalIndex → Option Text
index_tip none = none
index_tip (some i) = tip i

-- Every manifest is stored under its own id.
abbrev pub are_keyed : List (Text × SnapshotManifest) → Bool
are_keyed ms = all (λ (f : Text × SnapshotManifest). same f.1.id f.0) ms

pub record IsConsistent (hasher : Octets → Text) (w : World) : Type 0 where
  pub hashed : Hashed hasher w.blobs
  pub backed :
      (id : Text) (m : SnapshotManifest)
      → get Text-discrete w.manifests id ≡ some m
      → has_blobs w.blobs m.files ≡ true
  pub keyed : are_keyed w.manifests ≡ true
  pub listed : have_manifests w.manifests (rows w.index_file) ≡ true
  pub headed : is_known w.manifests (head_id w.head_file) ≡ true
  pub indexed : is_known w.manifests (index_tip w.local_index) ≡ true

-- From a state of the first kind, the step leaves a consistent state, whether or not it fails; where
-- it does not fail, one of the second kind.
abbrev pub Keeps : (Octets → Text) → (World → Type 0) → Step → (World → Type 0) → Type 0
Keeps hasher P s Q = (w : World) → P w → IsConsistent hasher (s w).0 × ((s w).1 ≡ ok tt → Q (s w).0)

and_then-Keeps :
    (hasher : Octets → Text) (Q R : World → Type 0) (t : Step) (r : World × Result (Unit {0}))
    → IsConsistent hasher r.0 × (r.1 ≡ ok tt → Q r.0)
    → Keeps hasher Q t R
    → IsConsistent hasher (and_then r t).0 × ((and_then r t).1 ≡ ok tt → R (and_then r t).0)
and_then-Keeps hasher Q R t (w, ok u) h k = k w (h.1 refl)
and_then-Keeps hasher Q R t (w, err f) h k = (h.0, λ e. absurd (ground arith))

pub >>-Keeps :
    (hasher : Octets → Text) (P Q R : World → Type 0) (s t : Step)
    → Keeps hasher P s Q
    → Keeps hasher Q t R
    → Keeps hasher P (s >> t) R
>>-Keeps hasher P Q R s t h k w p = and_then-Keeps hasher Q R t (s w) (h w p) k

-- New blobs and manifests leave the references as they are.
pub has_blobs_mono :
    (store after : Blobs) (fs : Files)
    → ((h : Text) → has_blob store h ≡ true → has_blob after h ≡ true)
    → has_blobs store fs ≡ true
    → has_blobs after fs ≡ true
has_blobs_mono store after [] mono h = refl
has_blobs_mono store after (f ∷ fs) mono h =
    ground (arith, mono f.1.hash, has_blobs_mono store after fs mono)

pub put-has_manifest :
    (ms : List (Text × SnapshotManifest)) (m : SnapshotManifest) (k id : Text)
    → has_manifest (put Text-discrete ms k m) id ≡ (same k id || has_manifest ms id)
put-has_manifest ms m k id = ground (arith, get-put Text-discrete ms k id m)

pub put-have_manifests :
    (ms : List (Text × SnapshotManifest)) (m : SnapshotManifest) (k : Text)
    (rs : List SnapshotIndexEntry)
    → have_manifests ms rs ≡ true
    → have_manifests (put Text-discrete ms k m) rs ≡ true
put-have_manifests ms m k [] h = refl
put-have_manifests ms m k (s ∷ rs) h =
    ground (arith, put-has_manifest ms m k s.id, put-have_manifests ms m k rs)

pub put-is_known :
    (ms : List (Text × SnapshotManifest)) (m : SnapshotManifest) (k : Text) (o : Option Text)
    → is_known ms o ≡ true
    → is_known (put Text-discrete ms k m) o ≡ true
put-is_known ms m k none h = refl
put-is_known ms m k (some id) h = ground (arith, put-has_manifest ms m k id)

put-are_keyed :
    (ms : List (Text × SnapshotManifest)) (m : SnapshotManifest)
    → are_keyed ms ≡ true
    → are_keyed (put Text-discrete ms m.id m) ≡ true
put-are_keyed [] m h = ground (arith, eqb_iff Text-discrete m.id m.id)
put-are_keyed (f ∷ ms) m h =
    ground
      (arith, put-are_keyed ms m, eqb_iff Text-discrete f.0 m.id, eqb_iff Text-discrete m.id m.id)

-- New blobs keep a state consistent.
pub blobs-IsConsistent :
    (hasher : Octets → Text) (w : World) (after : Blobs)
    → ((h : Text) → has_blob w.blobs h ≡ true → has_blob after h ≡ true)
    → Hashed hasher after
    → IsConsistent hasher w
    → IsConsistent hasher (record w { blobs = after })
blobs-IsConsistent hasher w after mono named c = record {
  hashed = named;
  backed = λ id m g. has_blobs_mono w.blobs after m.files mono (c.backed id m g);
  keyed = c.keyed;
  listed = c.listed;
  headed = c.headed;
  indexed = c.indexed;
}

-- So does a new manifest that has its blobs.
pub manifest-IsConsistent :
    (hasher : Octets → Text) (w : World) (m : SnapshotManifest)
    → has_blobs w.blobs m.files ≡ true
    → IsConsistent hasher w
    → IsConsistent hasher (record w { manifests = put Text-discrete w.manifests m.id m })
manifest-IsConsistent hasher w m stored c = record {
  hashed = c.hashed;
  backed =
      λ id n g. ground (arith, get-put Text-discrete w.manifests m.id id m, c.backed id n, stored);
  keyed = put-are_keyed w.manifests m c.keyed;
  listed = put-have_manifests w.manifests m m.id (rows w.index_file) c.listed;
  headed = put-is_known w.manifests m m.id (head_id w.head_file) c.headed;
  indexed = put-is_known w.manifests m m.id (index_tip w.local_index) c.indexed;
}
