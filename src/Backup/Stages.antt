-- ===== src/Backup/Stages.antt =====
-- What a commit is given, and the states between its steps.
use obsidian_archivist.Events.Queue.{EventQueue}
use obsidian_archivist.Backup.LocalIndex.{save_local_index}
use obsidian_archivist.Devices.Coordinator.{Coordinator}
use obsidian_archivist.Model.Failure.{err, Failure, ok, Result}
use obsidian_archivist.Startup.Report.{head}
use obsidian_archivist.Store.Index.{rows}
use obsidian_archivist.Store.Kept.{is_listed}
use obsidian_archivist.Restore.Chain.{is_full_kind}
use obsidian_archivist.Backup.Consistent.{tip, index_tip, has_blobs, IsConsistent}
use obsidian_archivist.Backup.Commit.{write_to, committed_head, World, CommitCalls, CommitArgs}
use obsidian_archivist.Backup.UploadLaws.{
  collect_new_blobs-has, has_blob, hashes_of, are_read, are_stored,
}
use obsidian_archivist.Model.Manifest.{SnapshotManifest, LocalIndex, FileEntry, Files}
use obsidian_archivist.Common.Text.{Text-discrete, Text}
use obsidian_archivist.Backup.Uploads.{collect_new_blobs, FileData, Blobs, Octets}
use obsidian_archivist.Common.{
  none, Option, refl, arith, map, get, all, has, ◌≤◌, true, ◌≡◌, some, [], ◌∷◌,
}

-- What the commit is given: a positive number of uploads at a time, files with the hashes of their
-- bytes, and every file of the manifest among them.
pub record IsReady (hasher : Octets → Text) (args : CommitArgs) : Type 0 where
  pub positive : 1 ≤ args.parallelism
  pub read : are_read hasher args.file_data ≡ true
  pub covered :
      all
        (λ (f : Text × FileEntry). has Text-discrete (hashes_of args.file_data) f.1.hash)
        args.manifest.files
      ≡ true

-- The states between the steps.
module _ (hasher : Octets → Text) (args : CommitArgs) (calls : CommitCalls) where
  -- A full snapshot's blobs are uploaded before the commit.
  abbrev pub Start : World → Type 0
  Start w =
      IsConsistent hasher w
      × (is_full_kind args.manifest.kind ≡ true → has_blobs w.blobs args.manifest.files ≡ true)

  abbrev pub Uploaded : World → Type 0
  Uploaded w = IsConsistent hasher w × (has_blobs w.blobs args.manifest.files ≡ true)

  abbrev pub Stored : World → Type 0
  Stored w =
      IsConsistent hasher w × (get Text-discrete w.manifests args.manifest.id ≡ some args.manifest)

  abbrev pub Listed : World → Type 0
  Listed w =
      IsConsistent hasher w
      × (get Text-discrete w.manifests args.manifest.id ≡ some args.manifest)
      × (is_listed args.manifest.id (rows w.index_file) ≡ true)

  abbrev pub Headed : World → Type 0
  Headed w =
      IsConsistent hasher w
      × (get Text-discrete w.manifests args.manifest.id ≡ some args.manifest)
      × (is_listed args.manifest.id (rows w.index_file) ≡ true)
      × (w.head_file ≡ head (committed_head args.manifest calls.committed_at))

  abbrev pub Saved : World → Type 0
  Saved w =
      IsConsistent hasher w
      × (get Text-discrete w.manifests args.manifest.id ≡ some args.manifest)
      × (is_listed args.manifest.id (rows w.index_file) ≡ true)
      × (w.head_file ≡ head (committed_head args.manifest calls.committed_at))
      × (index_tip w.local_index ≡ some args.manifest.id)

stored_one :
    (store es : Blobs) (h : Text)
    → are_stored store es ≡ true
    → has Text-discrete (map (λ (e : Text × Octets). e.0) es) h ≡ true
    → has_blob store h ≡ true
stored_one store [] h s k = absurd (ground arith)
stored_one store (e ∷ es) h s k = ground (arith, stored_one store es h)

pub collected_blobs :
    (store : Blobs) (d : FileData) (fs : Files)
    → are_stored store (collect_new_blobs d []) ≡ true
    → all (λ (f : Text × FileEntry). has Text-discrete (hashes_of d) f.1.hash) fs ≡ true
    → has_blobs store fs ≡ true
collected_blobs store d [] s h = refl
collected_blobs store d (f ∷ fs) s h = ground (
  arith,
  collected_blobs store d fs s,
  collect_new_blobs-has d [] f.1.hash,
  stored_one store (collect_new_blobs d []) f.1.hash s,
)

pub local_only :
    (hasher : Octets → Text) (w : World) (d : Coordinator) (q : EventQueue)
    → IsConsistent hasher w
    → IsConsistent hasher (record w { device = d; queue = q })
local_only hasher w d q c = record {
  hashed = c.hashed;
  backed = c.backed;
  keyed = c.keyed;
  listed = c.listed;
  headed = c.headed;
  indexed = c.indexed;
}

-- An upload to a path, or a save, that leaves a state of the kind where it goes through.
pub write_to-Keeps :
    (hasher : Octets → Text) (Q : World → Type 0) (path : Result Text) (fails : Option Failure)
    (after w : World)
    → IsConsistent hasher w
    → IsConsistent hasher after
    → Q after
    → IsConsistent hasher (write_to path fails after w).0
      × ((write_to path fails after w).1 ≡ ok tt → Q (write_to path fails after w).0)
write_to-Keeps hasher Q (err f) fails after w c d q = (c, λ e. absurd (ground arith))
write_to-Keeps hasher Q (ok path) (some f) after w c d q = (c, λ e. absurd (ground arith))
write_to-Keeps hasher Q (ok path) none after w c d q = (d, λ e. q)

pub tip-save_local_index :
    (existing : Option LocalIndex) (m : SnapshotManifest) (committed_at : Text)
    → tip (save_local_index existing m committed_at) ≡ some m.id
unfolding save_local_index
tip-save_local_index existing m committed_at = ground arith
