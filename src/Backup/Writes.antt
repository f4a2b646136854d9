-- ===== src/Backup/Writes.antt =====
-- What a commit that goes through writes, and what one that fails leaves of the queue.
use obsidian_archivist.Paths.Remote.{head_path, snapshot_path}
use obsidian_archivist.Restore.Chain.{is_full_kind}
use obsidian_archivist.Backup.LocalIndex.{save_local_index}
use obsidian_archivist.Startup.Report.{head}
use obsidian_archivist.Model.Manifest.{LocalIndex, SnapshotManifest}
use obsidian_archivist.Common.Text.{Text-discrete, Text}
use obsidian_archivist.Model.Failure.{err, ok, Failure, Result}
use obsidian_archivist.Backup.Commit.{
  committed_head, blobs_step, head_step, check_step, index_step, local_step, manifest_step,
  queue_step, ◌>>◌, write_to, commit_snapshot, Step, CommitCalls, World, CommitArgs, and_then,
}
use obsidian_archivist.Common.{
  ap, refl, inl, inr, Option-cases, arith, put, Bool-cases, ◌≡◌, Option, none, some, List,
}

-- Where the step goes through, the first kind of state becomes the second.
abbrev pub Gives : (World → Type 0) → Step → (World → Type 0) → Type 0
Gives P s Q = (w : World) → P w → (s w).1 ≡ ok tt → Q (s w).0

and_then-Gives :
    (Q R : World → Type 0) (t : Step) (r : World × Result (Unit {0}))
    → (r.1 ≡ ok tt → Q r.0)
    → Gives Q t R
    → (and_then r t).1 ≡ ok tt
    → R (and_then r t).0
and_then-Gives Q R t (w, ok u) h k e = k w (h refl) e
and_then-Gives Q R t (w, err f) h k e = absurd (ground arith)

pub >>-Gives :
    (P Q R : World → Type 0) (s t : Step) → Gives P s Q → Gives Q t R → Gives P (s >> t) R
>>-Gives P Q R s t h k w p = and_then-Gives Q R t (s w) (h w p) k

-- The manifests and the local index of a state.
abbrev Holds : List (Text × SnapshotManifest) → Option LocalIndex → World → Type 0
Holds ms i w = (w.manifests ≡ ms) × (w.local_index ≡ i)

write_to-writes :
    (path : Result Text) (fails : Option Failure) (after w : World)
    → (write_to path fails after w).1 ≡ ok tt
    → (write_to path fails after w).0 ≡ after
write_to-writes (err f) fails after w h = absurd (ground arith)
write_to-writes (ok path) (some f) after w h = absurd (ground arith)
write_to-writes (ok path) none after w h = refl

module _ (args : CommitArgs) (calls : CommitCalls) (ms : List (Text × SnapshotManifest))
    (i : Option LocalIndex) where
  blobs_step-Holds : Gives (Holds ms i) (blobs_step args calls) (Holds ms i)
  unfolding blobs_step
  blobs_step-Holds w h e = elim (Bool-cases (is_full_kind args.manifest.kind)) [
    | inl k ↦ ground arith
    | inr k ↦ ground arith
  ]

  check_step-Holds : Gives (Holds ms i) (check_step calls) (Holds ms i)
  unfolding check_step
  check_step-Holds w h e = h

  manifest_step-Holds :
      Gives
        (Holds ms i)
        (manifest_step args calls)
        (Holds (put Text-discrete ms args.manifest.id args.manifest) i)
  unfolding manifest_step
  manifest_step-Holds w h e =
      let m = args.manifest in
      let after : World = record w { manifests = put Text-discrete w.manifests m.id m } in
      rw (write_to-writes (snapshot_path m.vault_prefix m.id) calls.manifest_fails after w e)
        (ap (λ (ns : List (Text × SnapshotManifest)). put Text-discrete ns m.id m) h.0, h.1)

  index_step-Holds : Gives (Holds ms i) (index_step args calls) (Holds ms i)
  unfolding index_step
  index_step-Holds w h e = h

  head_step-Holds : Gives (Holds ms i) (head_step args calls) (Holds ms i)
  unfolding head_step
  head_step-Holds w h e =
      let after : World = record w {
        head_file = head (committed_head args.manifest calls.committed_at);
      } in
      rw (write_to-writes (head_path args.vault_prefix) calls.head_fails after w e) h

  local_step-Holds :
      Gives
        (Holds ms i)
        (local_step args calls)
        (Holds ms (some (save_local_index i args.manifest calls.committed_at)))
  unfolding local_step
  local_step-Holds w h e = elim (Option-cases calls.load_index_fails) [
    | inr (f, l) ↦ absurd (ground arith)
    | inl l ↦ elim (Option-cases calls.save_index_fails) [
      | inr (f, s) ↦ absurd (ground arith)
      | inl s ↦ ground arith
    ]
  ]

  queue_step-Holds : Gives (Holds ms i) (queue_step args calls) (Holds ms i)
  unfolding queue_step
  queue_step-Holds w h e = h

module _ (args : CommitArgs) (calls : CommitCalls) where
  -- A commit that goes through adds the manifest, and saves the local index that follows from the old
  -- one and the manifest.
  pub commit_snapshot-writes :
      (w : World)
      → (commit_snapshot args calls w).1 ≡ ok tt
      → let after = (commit_snapshot args calls w).0 in
        (after.manifests ≡ put Text-discrete w.manifests args.manifest.id args.manifest)
        × (after.local_index
            ≡ some (save_local_index w.local_index args.manifest calls.committed_at))
  unfolding commit_snapshot
  commit_snapshot-writes w =
      let m = args.manifest in
      let ms = put Text-discrete w.manifests m.id m in
      let before = Holds w.manifests w.local_index in
      let added = Holds ms w.local_index in
      let saved = Holds ms (some (save_local_index w.local_index m calls.committed_at)) in
      let steps1 = blobs_step args calls in
      let steps2 = steps1 >> check_step calls in
      let steps3 = steps2 >> manifest_step args calls in
      let steps4 = steps3 >> index_step args calls in
      let steps5 = steps4 >> head_step args calls in
      let steps6 = steps5 >> local_step args calls in
      let to2 =
        >>-Gives before before before steps1 (check_step calls)
          (blobs_step-Holds args calls w.manifests w.local_index)
          (check_step-Holds args calls w.manifests w.local_index) in
      let to3 =
        >>-Gives before before added steps2 (manifest_step args calls) to2
          (manifest_step-Holds args calls w.manifests w.local_index) in
      let to4 =
        >>-Gives before added added steps3 (index_step args calls) to3
          (index_step-Holds args calls ms w.local_index) in
      let to5 =
        >>-Gives before added added steps4 (head_step args calls) to4
          (head_step-Holds args calls ms w.local_index) in
      let to6 =
        >>-Gives before added saved steps5 (local_step args calls) to5
          (local_step-Holds args calls ms w.local_index) in
      >>-Gives before saved saved steps6 (queue_step args calls) to6
        (queue_step-Holds args calls ms
          (some (save_local_index w.local_index m calls.committed_at)))
        w (refl, refl)
