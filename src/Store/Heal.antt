-- ===== src/Store/Heal.antt =====
-- src/services/BackupService.ts, `appendToIndexWithSelfHeal`: an append that finds the index
-- corrupt rebuilds it and tries again.
use obsidian_archivist.Model.Failure.{snapshot_index_invalid, err, ok, Result, Failure}
use obsidian_archivist.Model.Manifest.{SnapshotIndex, SnapshotIndexEntry}
use obsidian_archivist.Common.Text.{same, Text}
use obsidian_archivist.Store.Index.{rows, valid, corrupt, read, Net, append, IndexFile}
use obsidian_archivist.Common.{
  refl, ◌≤◌, arith, ◌+◌, filter, if◌then◌else◌, ltb, ◌≡◌, length, false, ◌++◌, ℕ, true, any, Bool,
  Option, none, some, List, [], ◌∷◌,
}

-- The rebuild hook, and the outcomes of the network at the first append, the read and the second.
abbrev pub Hook : Type 0
Hook = IndexFile → IndexFile × Result (Unit {0})

pub record Attempts : Type 0 where
  pub first : Net
  pub reread : Net
  pub second : Net

abbrev pub is_corruption : Failure → Bool
is_corruption snapshot_index_invalid = true
is_corruption _ = false

abbrev pub already_present : Text → Option SnapshotIndex → Bool
already_present id none = false
already_present id (some i) = any (λ s. same s.id id) i.snapshots

unfoldable pub append_unless_present :
    Attempts → SnapshotIndexEntry → IndexFile → IndexFile × Result (Unit {0})
append_unless_present nets entry file = elim (read nets.reread file) [
  | err f ↦ (file, err f)
  | ok rebuilt ↦
      if already_present entry.id rebuilt then (file, ok tt) else append nets.second entry file
]

unfoldable pub after_rebuild :
    Attempts → SnapshotIndexEntry → IndexFile × Result (Unit {0}) → IndexFile × Result (Unit {0})
unfolding append_unless_present
after_rebuild nets entry (file, err f) = (file, err f)
after_rebuild nets entry (file, ok u) = append_unless_present nets entry file

unfoldable pub heal :
    Attempts
    → Option Hook
    → SnapshotIndexEntry
    → Failure
    → IndexFile
    → IndexFile × Result (Unit {0})
unfolding after_rebuild
heal nets none entry f file = (file, err f)
heal nets (some rebuild_hook) entry f file =
    if is_corruption f then after_rebuild nets entry (rebuild_hook file) else (file, err f)

unfoldable pub append_with_self_heal :
    Attempts → Option Hook → SnapshotIndexEntry → IndexFile → IndexFile × Result (Unit {0})
unfolding heal
append_with_self_heal nets hook entry file =
    let (after, result) = append nets.first entry file in
    elim result [ ok u ↦ (after, ok u) | err f ↦ heal nets hook entry f after ]

-- How many rows have an id.
abbrev pub rows_of : Text → List SnapshotIndexEntry → ℕ
rows_of id ss = length (filter (λ s. same s.id id) ss)

rows_of-append :
    (id : Text) (ss : List SnapshotIndexEntry) (e : SnapshotIndexEntry)
    → rows_of id (ss ++ e ∷ []) ≡ rows_of id ss + (if same e.id id then 1 else 0)
rows_of-append id [] e = ground arith
rows_of-append id (s ∷ ss) e = ground (arith, rows_of-append id ss e)

any-rows_of :
    (id : Text) (ss : List SnapshotIndexEntry) → any (λ s. same s.id id) ss ≡ ltb 0 (rows_of id ss)
any-rows_of id [] = refl
any-rows_of id (s ∷ ss) = ground (arith, any-rows_of id ss)

-- A commit recovers from a corrupt index: if the hook rebuilds the index with the manifest of the
-- new snapshot at most once among its rows, and the read and the second append go through, then
-- the append succeeds and exactly one row has the id of the snapshot.
pub append_with_self_heal_once :
    (nets : Attempts) (rebuild_hook : Hook) (entry : SnapshotIndexEntry) (rebuilt : SnapshotIndex)
    → nets.first.download_fails ≡ none
    → nets.reread.download_fails ≡ none
    → nets.second.download_fails ≡ none
    → nets.second.upload_fails ≡ none
    → rebuild_hook (some corrupt) ≡ (some (valid rebuilt), ok tt)
    → rows_of entry.id rebuilt.snapshots ≤ 1
    → let (after, result) = append_with_self_heal nets (some rebuild_hook) entry (some corrupt) in
      (result ≡ ok tt) × (rows_of entry.id (rows after) ≡ 1)
unfolding append_with_self_heal append read
append_with_self_heal_once nets rebuild_hook entry rebuilt d1 d2 d3 u h once =
    ground (
      arith,
      any-rows_of entry.id rebuilt.snapshots,
      rows_of-append entry.id rebuilt.snapshots entry,
    )
