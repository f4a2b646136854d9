-- ===== src/Examples/Restoring.antt =====
-- Restores, backups, the index and the queue at concrete inputs.
use obsidian_archivist.Backup.ChainWalk.{
  walk_chain_to_full-IsJustified, intact, IsJustified, Link, ChainStatus, walk_chain,
  walk_chain_to_full,
}
use obsidian_archivist.Model.Failure.{◌>>=◌, Result, path_not_found, err, ok}
use obsidian_archivist.Backup.Agreement.{files_after-eq-replay}
use obsidian_archivist.Backup.LocalIndex.{files_after}
use obsidian_archivist.Backup.Buckets.{
  drop_renames_onto, bucket_entry, bucket_from, bucket_queue_entries,
}
use obsidian_archivist.Restore.Walk.{
  load_chain_to_full-ChainFrom, load_chain_to_full_total, ChainFrom, Knows,
}
use obsidian_archivist.Common.Text.{same, Text, Text-discrete}
use obsidian_archivist.Restore.Laws.{at}
use obsidian_archivist.Restore.Replay.{
  apply_deleted, apply_files, apply_rename, apply_renames, replay,
}
use obsidian_archivist.Restore.Chain.{is_full_kind, walk, load_chain_to_full, Loader}
use obsidian_archivist.Common.{
  inl, Bool-cases, inr, refl, false, eqb_iff, has, true, arith, if◌then◌else◌, ◌≡◌, ℕ, is_some,
  Option, none, some, List, [], ◌∷◌,
}
use obsidian_archivist.Model.Manifest.{
  FileEntry, RenameEntry, SnapshotManifest, QueueEntry, Files, SnapshotType, ChangeType,
}
use obsidian_archivist.Backup.Windows.{bucket_queue_entries_last, delete_then_rename_lost}

abbrev entry : Text → FileEntry
entry h = record { hash = h; size = 1; mtime = 2 }

-- A path, an id or an instant as one code.
abbrev one : ℕ → Text
one c = c ∷ []

abbrev manifest :
    Text → SnapshotType → Option Text → Files → List Text → List RenameEntry → SnapshotManifest
manifest id kind parent files deleted renames = record {
  id = id;
  kind = kind;
  parent_id = parent;
  device_id = one 1;
  created_at = id;
  vault_name = one 2;
  vault_prefix = one 3;
  files = files;
  deleted = deleted;
  renames = renames;
  exclusions_applied = none;
}

-- Paths 10, 11 and 12.
abbrev base_files : Files
base_files = (one 10, entry (one 90)) ∷ (one 11, entry (one 91)) ∷ []

abbrev the_full : SnapshotManifest
the_full = manifest (one 50) SnapshotType.full none base_files [] []

-- Renames 10 to 12, deletes 11 and lists 13.
abbrev the_inc : SnapshotManifest
the_inc =
    manifest (one 51) SnapshotType.inc (some (one 50)) ((one 13, entry (one 93)) ∷ []) (one 11 ∷ [])
      (record { from = one 10; to = one 12 } ∷ [])

abbrev loader : Loader
loader id =
    if same id (one 51)
    then ok the_inc
    else if same id (one 50)
    then ok the_full
    else err path_not_found

replay_test : replay base_files the_inc ≡ (one 12, entry (one 90)) ∷ (one 13, entry (one 93)) ∷ []
unfolding replay apply_renames apply_rename apply_files apply_deleted Text-discrete
replay_test = refl

files_after-eq-replay_example :
    at (files_after the_inc base_files) (one 12) ≡ at (replay base_files the_inc) (one 12)
unfolding Text-discrete apply_rename
files_after-eq-replay_example =
    files_after-eq-replay the_inc base_files base_files (refl, inr refl, tt)
      (λ p h. ground (arith, eqb_iff Text-discrete (one 13) p, eqb_iff Text-discrete (one 11) p))
      (λ p. refl) (one 12)

known : Knows (one 50 ∷ one 51 ∷ []) loader
unfolding Text-discrete
known c m h = elim (Bool-cases (same c (one 51))) [
  | inl e ↦ rw ((eqb_iff Text-discrete c (one 51)).0 e) refl
  | inr e ↦ elim (Bool-cases (same c (one 50))) [
    | inl f ↦ rw ((eqb_iff Text-discrete c (one 50)).0 f) refl
    | inr f ↦ absurd (ground arith)
  ]
]

load_chain_to_full_total_example : is_some (load_chain_to_full 3 loader (one 51)) ≡ true
load_chain_to_full_total_example =
    load_chain_to_full_total 3 loader (one 50 ∷ one 51 ∷ []) (one 51) known (ground arith)

load_chain_to_full-ChainFrom_example : ChainFrom loader (some (one 51)) (the_inc ∷ the_full ∷ [])
unfolding load_chain_to_full walk Text-discrete
load_chain_to_full-ChainFrom_example =
    load_chain_to_full-ChainFrom 3 loader (one 51) (the_inc ∷ the_full ∷ []) refl

abbrev event : ChangeType → Text → Option Text → Text → QueueEntry
event change path prev at_time = record {
  id = one 70;
  change = change;
  path = path;
  prev_path = prev;
  observed_at = at_time;
}

abbrev made : QueueEntry
made = event ChangeType.create (one 10) none (one 1)

abbrev gone : QueueEntry
gone = event ChangeType.delete (one 10) none (one 2)

abbrev moved : QueueEntry
moved = event ChangeType.rename (one 10) (some (one 11)) (one 3)

bucket_queue_entries_last_example :
    let b = bucket_queue_entries (made ∷ gone ∷ []) in
    (has Text-discrete b.changes (one 10) ≡ false)
    × (has Text-discrete b.deleted (one 10) ≡ true)
    × (b.renames ≡ [])
unfolding Text-discrete
bucket_queue_entries_last_example = bucket_queue_entries_last (made ∷ gone ∷ []) (one 10) refl

abbrev after_move : SnapshotManifest
after_move =
    manifest (one 52) SnapshotType.inc (some (one 50)) [] (one 10 ∷ [])
      (record { from = one 11; to = one 10 } ∷ [])

delete_then_rename_lost_example :
    ((bucket_queue_entries (gone ∷ moved ∷ [])).changes ≡ [])
    × (at (replay base_files after_move) (one 10) ≡ none)
    × (at (replay base_files after_move) (one 11) ≡ at base_files (one 11))
unfolding Text-discrete bucket_queue_entries bucket_from bucket_entry drop_renames_onto
delete_then_rename_lost_example =
    delete_then_rename_lost (one 11) (one 10) gone moved refl refl refl refl refl base_files
      after_move (ground arith) refl refl refl refl refl refl

abbrev links : Text → Result Link
links id = loader id >>= λ m. ok (record { is_full = is_full_kind m.kind; parent_id = m.parent_id })

walk_chain_test : walk_chain_to_full links (one 51) ≡ some (ok (intact 2))
unfolding walk_chain_to_full walk_chain Text-discrete
walk_chain_test = refl

walk_chain_to_full-IsJustified_example :
    (r : Result ChainStatus) × (walk_chain_to_full links (one 51) ≡ some r)
    × IsJustified links (one 51) 0 r
walk_chain_to_full-IsJustified_example = walk_chain_to_full-IsJustified links (one 51)
