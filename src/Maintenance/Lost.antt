-- ===== src/Maintenance/Lost.antt =====
-- The retention job and the local index: what it keeps where nothing runs beside it, and what a
-- commit beside it loses.
use obsidian_archivist.Backup.Stages.{tip-save_local_index}
use obsidian_archivist.Maintenance.Job.{
  schedule_retention_if_due, finish_job, is_job_due, Maintenance, JobCalls,
}
use obsidian_archivist.Backup.Writes.{commit_snapshot-writes}
use obsidian_archivist.Backup.LocalIndex.{save_local_index}
use obsidian_archivist.Backup.Consistent.{tip}
use obsidian_archivist.Backup.Sync.{InSync}
use obsidian_archivist.Backup.Commit.{CommitArgs, CommitCalls, World, commit_snapshot}
use obsidian_archivist.Retention.Dates.{Dates}
use obsidian_archivist.Model.Failure.{ok}
use obsidian_archivist.Model.Manifest.{LocalIndex, SnapshotManifest}
use obsidian_archivist.Common.Text.{Text-discrete}
use obsidian_archivist.Common.{
  refl, arith, get, get-put, ap, ◌∙◌, ◌≡◌, ℕ, true, Option, none, some, List,
}

-- A job that goes through, with nothing beside it, leaves the local index in sync.
finish_job-InSync :
    (job : JobCalls) (s : Maintenance) (w : World) (i : LocalIndex) (chain : List SnapshotManifest)
    → InSync w i chain
    → job.retention ≡ ok tt
    → job.save_fails ≡ none
    → InSync
        (record w { local_index = (finish_job i job (s, w.local_index)).1 })
        (record i { last_retention_at = some job.now_iso })
        chain
unfolding finish_job
finish_job-InSync job s w i chain sync r f = record {
  saved = ground arith;
  linked = sync.linked;
  agrees = sync.agrees;
}

-- A commit between the start and the end of the retention job is lost from the local index: where
-- retention is due, the job starts with the index i that is stored; a commit that goes through then
-- stores its manifest and makes it the tip of the stored index; if the retention and the save go
-- through, the end of the job stores i again with the new time, whose tip is the one before the
-- commit.
pub commit_during_job_lost :
    (dates : Dates) (now : ℕ) (s : Maintenance) (job : JobCalls) (args : CommitArgs)
    (calls : CommitCalls) (w : World) (i : LocalIndex)
    → w.local_index ≡ some i
    → is_job_due dates i.last_retention_at now ≡ true
    → (commit_snapshot args calls w).1 ≡ ok tt
    → job.retention ≡ ok tt
    → job.save_fails ≡ none
    → let (started, captured) = schedule_retention_if_due dates now (ok w.local_index) s in
      let after = (commit_snapshot args calls w).0 in
      let committed = save_local_index (some i) args.manifest calls.committed_at in
      let finished = record i { last_retention_at = some job.now_iso } in
      (captured ≡ ok (some i))
      × (get Text-discrete after.manifests args.manifest.id ≡ some args.manifest)
      × (after.local_index ≡ some committed)
      × (tip committed ≡ some args.manifest.id)
      × ((finish_job i job (started, after.local_index)).1 ≡ some finished)
      × (tip finished ≡ tip i)
unfolding schedule_retention_if_due finish_job
commit_during_job_lost dates now s job args calls w i stored due e r f =
    let m = args.manifest in
    let (manifests, local) = commit_snapshot-writes args calls w e in
    (
      ground arith,
      rw manifests (ground (arith, get-put Text-discrete w.manifests m.id m.id m)),
      local ∙ ap (λ (x : Option LocalIndex). some (save_local_index x m calls.committed_at)) stored,
      tip-save_local_index (some i) m calls.committed_at,
      ground arith,
      refl,
    )
