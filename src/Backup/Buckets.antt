-- ===== src/Backup/Buckets.antt =====
-- src/services/BackupService.ts, `bucketQueueEntries` and `buildChanges`: what the queued events
-- say was changed, deleted and renamed, and which of the changed paths have new content.
use obsidian_archivist.Common.Text.{same, Text-discrete, Text}
use obsidian_archivist.Model.Manifest.{
  LocalIndex, Files, FileEntry, ChangeType, RenameEntry, QueueEntry, create, modify, delete, rename,
}
use obsidian_archivist.Common.{
  has, get, not, put, map, filter, add, false, if◌then◌else◌, Bool, Option, none, some, List, [],
  ◌∷◌,
}

-- The two sets, and the map of renames from old to new path.
pub record Buckets : Type 0 where
  pub changes : List Text
  pub deleted : List Text
  pub renames : List (Text × Text)

abbrev pub no_buckets : Buckets
no_buckets = record { changes = []; deleted = []; renames = [] }

-- `Set.delete`.
abbrev pub remove : List Text → Text → List Text
remove xs p = filter (λ x. not (same x p)) xs

-- The loop over the renames in the case of a delete: those onto the path go, and their old paths
-- are deleted.
unfoldable pub drop_renames_onto :
    Text → List (Text × Text) → List Text → List (Text × Text) × List Text
drop_renames_onto p [] dels = ([], dels)
drop_renames_onto p ((from, to) ∷ rs) dels =
    let hit = same to p in
    let (kept, ds) = drop_renames_onto p rs (if hit then add Text-discrete dels from else dels) in
    (if hit then kept else (from, to) ∷ kept, ds)

bucket_change : QueueEntry → Buckets → Buckets
bucket_change e b = record b {
  deleted = remove b.deleted e.path;
  changes = add Text-discrete b.changes e.path;
}

bucket_delete : QueueEntry → Buckets → Buckets
unfolding drop_renames_onto
bucket_delete e b =
    let (kept, dels) = drop_renames_onto e.path b.renames (add Text-discrete b.deleted e.path) in
    record { changes = remove b.changes e.path; deleted = dels; renames = kept }

bucket_rename : QueueEntry → Option Text → Buckets → Buckets
bucket_rename e none b = b
bucket_rename e (some prev) b =
    let t = record b { renames = put Text-discrete b.renames prev e.path } in
    if has Text-discrete t.deleted e.path
    then t
    else record t { changes = add Text-discrete t.changes e.path }

bucket_by : ChangeType → QueueEntry → Buckets → Buckets
unfolding bucket_change bucket_delete bucket_rename
bucket_by create e b = bucket_change e b
bucket_by modify e b = bucket_change e b
bucket_by delete e b = bucket_delete e b
bucket_by rename e b = bucket_rename e e.prev_path b

-- One turn of the loop over the queue.
unfoldable pub bucket_entry : QueueEntry → Buckets → Buckets
unfolding bucket_by
bucket_entry e b = bucket_by e.change e b

unfoldable pub bucket_from : List QueueEntry → Buckets → Buckets
bucket_from [] b = b
bucket_from (e ∷ es) b = bucket_from es (bucket_entry e b)

unfoldable pub bucket_queue_entries : List QueueEntry → Buckets
unfolding bucket_from
bucket_queue_entries es = bucket_from es no_buckets

abbrev pub rename_entries : Buckets → List RenameEntry
rename_entries b = map (λ r. record { from = r.0; to = r.1 }) b.renames

-- `buildChanges`: of the changed paths those that were read and whose hash is not the index's.
abbrev pub has_hash : Option FileEntry → Text → Bool
has_hash none h = false
has_hash (some e) h = same h e.hash

abbrev pub is_changed : List (Text × Text) → Files → Text → Bool
is_changed hashes files p = elim (get Text-discrete hashes p) [
  | none ↦ false
  | some h ↦ not (has_hash (get Text-discrete files p) h)
]

unfoldable pub build_changes : List (Text × Text) → List Text → LocalIndex → List Text
build_changes hashes paths index = filter (is_changed hashes index.files) paths
