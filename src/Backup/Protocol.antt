-- ===== src/Backup/Protocol.antt =====
-- The commit of a snapshot: whichever step fails, the stored state stays consistent.
use obsidian_archivist.Backup.Stages.{
  Listed, collected_blobs, Stored, write_to-Keeps, Start, local_only, tip-save_local_index,
  Uploaded,
}
use obsidian_archivist.Backup.Stages.{Headed, Saved, IsReady}
use obsidian_archivist.Paths.Remote.{snapshot_path, head_path}
use obsidian_archivist.Backup.LocalIndex.{save_local_index}
use obsidian_archivist.Model.Failure.{IfOk-of, IfOk, ok}
use obsidian_archivist.Startup.Report.{head}
use obsidian_archivist.Store.Index.{manifest_to_index_entry}
use obsidian_archivist.Store.Kept.{append_with_self_heal-Kept}
use obsidian_archivist.Restore.Chain.{is_full_kind}
use obsidian_archivist.Backup.Consistent.{
  >>-Keeps, manifest-IsConsistent, blobs-IsConsistent, has_manifest, Keeps, IsConsistent,
}
use obsidian_archivist.Backup.Rebuilt.{hook_of-IsSound}
use obsidian_archivist.Backup.Commit.{
  ◌>>◌, commit_snapshot, head_step, check_step, local_step, committed_head, manifest_step,
  queue_step, index_step, hook_of, blobs_step, World, CommitCalls, CommitArgs,
}
use obsidian_archivist.Backup.UploadLaws.{collect_new_blobs-are_hashed, upload_blobs_lem}
use obsidian_archivist.Common.Text.{Text-discrete, Text}
use obsidian_archivist.Backup.Uploads.{upload_blobs, collect_new_blobs, Octets}
use obsidian_archivist.Common.{
  get-put, put, Option-cases, refl, arith, inr, inl, Bool-cases, ◌≡◌, some, [],
}

module _ (hasher : Octets → Text) (args : CommitArgs) (calls : CommitCalls) where
  blobs_step-Keeps :
      IsReady hasher args
      → Keeps hasher (Start hasher args calls) (blobs_step args calls) (Uploaded hasher args calls)
  unfolding blobs_step
  blobs_step-Keeps ready w (c, s) = elim (Bool-cases (is_full_kind args.manifest.kind)) [
    | inl k ↦ rw k (c, λ _. (c, s k))
    | inr k ↦
        let es = collect_new_blobs args.file_data [] in
        let (mono, stored, named) =
          upload_blobs_lem hasher args.vault_prefix calls.upload_fails args.parallelism es w.blobs
            ready.positive (collect_new_blobs-are_hashed hasher args.file_data [] ready.read)
            c.hashed in
        let after =
          (upload_blobs args.vault_prefix calls.upload_fails args.parallelism es w.blobs).0 in
        let kept = blobs-IsConsistent hasher w after mono named c in
        rw k (
          kept,
          λ r. (
            kept,
            collected_blobs after args.file_data args.manifest.files (stored r) ready.covered,
          ),
        )
  ]

  check_step-Keeps :
      Keeps hasher (Uploaded hasher args calls) (check_step calls) (Uploaded hasher args calls)
  unfolding check_step
  check_step-Keeps w (c, s) =
      let kept = local_only hasher w (check_step calls w).0.device w.queue c in
      (kept, λ _. (kept, s))

  manifest_step-Keeps :
      Keeps hasher
        (Uploaded hasher args calls)
        (manifest_step args calls)
        (Stored hasher args calls)
  unfolding manifest_step
  manifest_step-Keeps w (c, s) =
      let m = args.manifest in
      let after : World = record w { manifests = put Text-discrete w.manifests m.id m } in
      let kept = manifest-IsConsistent hasher w m s c in
      write_to-Keeps hasher (Stored hasher args calls) (snapshot_path m.vault_prefix m.id)
        calls.manifest_fails after w c kept
        (kept, ground (arith, get-put Text-discrete w.manifests m.id m.id m))

  index_step-Keeps :
      Keeps hasher (Stored hasher args calls) (index_step args calls) (Listed hasher args calls)
  unfolding index_step manifest_to_index_entry
  index_step-Keeps w (c, s) =
      let (all_known, listed) =
        append_with_self_heal-Kept (λ s. has_manifest w.manifests s.id) calls.attempts
          (hook_of calls.rebuild args.vault_prefix w) (manifest_to_index_entry args.manifest)
          w.index_file (hook_of-IsSound calls.rebuild args.vault_prefix w c.keyed)
          (rw (manifest_to_index_entry, s) refl) c.listed in
      let kept : IsConsistent hasher (index_step args calls w).0 = record {
        hashed = c.hashed;
        keyed = c.keyed;
        backed = c.backed;
        listed = all_known;
        headed = c.headed;
        indexed = c.indexed;
      } in
      (kept, λ r. (kept, s, listed r))

  head_step-Keeps :
      Keeps hasher (Listed hasher args calls) (head_step args calls) (Headed hasher args calls)
  unfolding head_step
  head_step-Keeps w (c, s, l) =
      let after : World = record w {
        head_file = head (committed_head args.manifest calls.committed_at);
      } in
      let kept : IsConsistent hasher after = record {
        hashed = c.hashed;
        keyed = c.keyed;
        backed = c.backed;
        listed = c.listed;
        headed = rw s refl;
        indexed = c.indexed;
      } in
      write_to-Keeps hasher (Headed hasher args calls) (head_path args.vault_prefix)
        calls.head_fails after w c kept (kept, s, l, refl)

  local_step-Keeps :
      Keeps hasher (Headed hasher args calls) (local_step args calls) (Saved hasher args calls)
  unfolding local_step
  local_step-Keeps w (c, s, l, h) = elim (Option-cases calls.load_index_fails) [
    | inr (f, e) ↦ rw e (c, λ r. absurd (ground arith))
    | inl e ↦
        let saved = save_local_index w.local_index args.manifest calls.committed_at in
        let after : World = record w { local_index = some saved } in
        let at_tip = tip-save_local_index w.local_index args.manifest calls.committed_at in
        let kept : IsConsistent hasher after = record {
          hashed = c.hashed;
          keyed = c.keyed;
          backed = c.backed;
          listed = c.listed;
          headed = c.headed;
          indexed = rw (at_tip, s) refl;
        } in
        rw e (
          write_to-Keeps hasher (Saved hasher args calls) (ok []) calls.save_index_fails after w c
            kept (kept, s, l, h, at_tip))
  ]

  queue_step-Keeps :
      Keeps hasher (Saved hasher args calls) (queue_step args calls) (Saved hasher args calls)
  unfolding queue_step
  queue_step-Keeps w (c, s, l, h, t) =
      let kept = local_only hasher w w.device (queue_step args calls w).0.queue c in
      (kept, λ _. (kept, s, l, h, t))

  pub commit_snapshot-Saved :
      IsReady hasher args
      → (w : World) → Start hasher args calls w
      → let (after, result) = commit_snapshot args calls w in
        IsConsistent hasher after × (result ≡ ok tt → Saved hasher args calls after)
  unfolding commit_snapshot
  commit_snapshot-Saved ready =
      let start = Start hasher args calls in
      let uploaded = Uploaded hasher args calls in
      let stored = Stored hasher args calls in
      let listed = Listed hasher args calls in
      let headed = Headed hasher args calls in
      let saved = Saved hasher args calls in
      let steps1 = blobs_step args calls in
      let steps2 = steps1 >> check_step calls in
      let steps3 = steps2 >> manifest_step args calls in
      let steps4 = steps3 >> index_step args calls in
      let steps5 = steps4 >> head_step args calls in
      let steps6 = steps5 >> local_step args calls in
      let to2 =
        >>-Keeps hasher start uploaded uploaded steps1 (check_step calls) (blobs_step-Keeps ready)
          check_step-Keeps in
      let to3 =
        >>-Keeps hasher start uploaded stored steps2 (manifest_step args calls) to2
          manifest_step-Keeps in
      let to4 =
        >>-Keeps hasher start stored listed steps3 (index_step args calls) to3 index_step-Keeps in
      let to5 =
        >>-Keeps hasher start listed headed steps4 (head_step args calls) to4 head_step-Keeps in
      let to6 =
        >>-Keeps hasher start headed saved steps5 (local_step args calls) to5 local_step-Keeps in
      >>-Keeps hasher start saved saved steps6 (queue_step args calls) to6 queue_step-Keeps

-- A commit in a consistent state leaves one, whichever of its steps fails, the rebuild of the index
-- included: every manifest is stored under its id and has its blobs, each under its hash, and every
-- row of the index, HEAD and the local index name stored manifests. Where it goes through, HEAD and
-- the local index name the new manifest, and the index lists it. The commit is given at least one
-- upload at a time, files with the hashes of their bytes, every file of the manifest among them, and a
-- full manifest only once its blobs are stored.
pub commit_snapshot-keeps :
    (hasher : Octets → Text) (args : CommitArgs) (calls : CommitCalls) (w : World)
    → IsReady hasher args
    → Start hasher args calls w
    → let (after, result) = commit_snapshot args calls w in
      IsConsistent hasher after × IfOk (λ u. Saved hasher args calls after) result
commit_snapshot-keeps hasher args calls w ready start =
    let (kept, saved) = commit_snapshot-Saved hasher args calls ready w start in
    let (after, result) = commit_snapshot args calls w in
    (kept, IfOk-of (λ (u : Unit {0}). Saved hasher args calls after) result (λ u. saved))
