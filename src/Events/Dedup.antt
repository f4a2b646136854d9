-- ===== src/Events/Dedup.antt =====
-- Which events the queue holds after its operations.
use obsidian_archivist.Model.Failure.{Failure}
use obsidian_archivist.Backup.Buckets.{
  drop_renames_onto, bucket_entry, bucket_from, bucket_queue_entries,
}
use obsidian_archivist.Model.Manifest.{delete, create, QueueEntry}
use obsidian_archivist.Common.Text.{Text-discrete, less_irrefl, Text}
use obsidian_archivist.Events.Queue.{
  Op, enqueue_op, is_after, repeats, EventQueue, is_duplicate, commit_window, run_ops, enqueue,
}
use obsidian_archivist.Common.{
  List, eqb_iff, false, arith, true, ◌≡◌, ℕ, Option, none, some, [], ◌∷◌,
}

-- A second event of one path and kind that comes within a second of the first while the first is
-- still queued leaves no trace: once the window of the first is committed, the queue is empty,
-- although the second came after that window.
pub late_duplicate_lost :
    (time_of : Text → Option ℕ) (q : EventQueue) (x e : QueueEntry)
    → q.initialized ≡ true
    → q.state.entries ≡ x ∷ []
    → repeats time_of e x ≡ true
    → is_after x.observed_at e ≡ true
    → let after = (commit_window none x.observed_at (enqueue time_of none e q).0).0 in
      (after.state.committed_through ≡ some x.observed_at) × (after.state.entries ≡ [])
unfolding enqueue commit_window is_duplicate
late_duplicate_lost time_of q x e i h r a =
    (ground arith, ground (arith, less_irrefl x.observed_at))

abbrev pub enqueue_three : QueueEntry → QueueEntry → QueueEntry → List (Option Failure × Op)
enqueue_three x d e = (none, enqueue_op x) ∷ (none, enqueue_op d) ∷ (none, enqueue_op e) ∷ []

queue_of_three :
    (time_of : Text → Option ℕ) (q : EventQueue) (x d e : QueueEntry)
    → q.initialized ≡ true
    → q.state.entries ≡ []
    → (x.change ≡ create) × (d.change ≡ delete)
    → repeats time_of e x ≡ true
    → (run_ops time_of (enqueue_three x d e) q).state.entries ≡ x ∷ d ∷ []
unfolding run_ops enqueue is_duplicate
queue_of_three time_of q x d e i h (c, g) r =
    let fresh : repeats time_of d x ≡ false = ground arith in ground arith

created_and_deleted :
    (x d : QueueEntry)
    → (x.change ≡ create) × (d.change ≡ delete)
    → d.path ≡ x.path
    → bucket_queue_entries (x ∷ d ∷ [])
      ≡ record { changes = []; deleted = x.path ∷ []; renames = [] }
unfolding bucket_queue_entries bucket_from bucket_entry drop_renames_onto
created_and_deleted x d (c, g) p = ground (arith, eqb_iff Text-discrete x.path d.path)

-- A path that is created, deleted and created again within a second counts as deleted: the second
-- creation repeats the first, so that the queue ends with the delete.
pub recreate_counts_as_deleted :
    (time_of : Text → Option ℕ) (q : EventQueue) (x d e : QueueEntry)
    → q.initialized ≡ true
    → q.state.entries ≡ []
    → (x.change ≡ create) × (d.change ≡ delete)
    → d.path ≡ x.path
    → repeats time_of e x ≡ true
    → let after = run_ops time_of (enqueue_three x d e) q in
      let b = bucket_queue_entries after.state.entries in
      (b.changes ≡ []) × (b.deleted ≡ x.path ∷ [])
unfolding run_ops
recreate_counts_as_deleted time_of q x d e i h k p r =
    ground (arith, queue_of_three time_of q x d e i h k r, created_and_deleted x d k p)
