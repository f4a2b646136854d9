-- ===== src/Startup/Repaired.antt =====
-- What a recovery that ends leaves behind, and what its report says of it.
use obsidian_archivist.Startup.Manifests.{snapshots_of, all_indexed}
use obsidian_archivist.Model.Failure.{err, ok, Result}
use obsidian_archivist.Common.Text.{Text-discrete, same, Text}
use obsidian_archivist.Startup.Recovery.{
  raise, is_healthy, rewrite_head, reconcile_head, reconcile_snapshot_index,
}
use obsidian_archivist.Startup.Report.{
  head_stale, head_points_to_missing, StartupState, healthy, RecoveryEnv, StartupReport, head, Disk,
  HeadFile,
}
use obsidian_archivist.Store.Index.{
  rebuild_from_entries, IndexFile, Net, rebuild, read, rows, manifest_to_index_entry,
}
use obsidian_archivist.Model.Manifest.{SnapshotIndexEntry, SnapshotManifest}
use obsidian_archivist.Common.{
  ◌≢◌, inr, inl, Bool-cases, Option-cases, eqb_iff, refl, true, arith, false, ◌≡◌, map, Bool,
  Option, none, some, List, [], ◌∷◌,
}

abbrev pub names_head : HeadFile → Text → Bool
names_head (head h) id = same h.snapshot_id id
names_head _ id = false

indexed_more :
    (ms : List SnapshotManifest) (r : SnapshotIndexEntry) (rs : List SnapshotIndexEntry)
    → all_indexed ms rs ≡ true
    → all_indexed ms (r ∷ rs) ≡ true
indexed_more [] r rs h = refl
indexed_more (m ∷ ms) r rs h = ground (arith, indexed_more ms r rs)

indexed_self : (ms : List SnapshotManifest) → all_indexed ms (map manifest_to_index_entry ms) ≡ true
unfolding manifest_to_index_entry
indexed_self [] = refl
indexed_self (m ∷ ms) = ground (
  arith,
  indexed_more ms (manifest_to_index_entry m) (map manifest_to_index_entry ms) (indexed_self ms),
  eqb_iff Text-discrete m.id m.id,
)

indexed_none :
    (ms : List SnapshotManifest) (rs : List SnapshotIndexEntry)
    → all_indexed ms [] ≡ true
    → all_indexed ms rs ≡ true
indexed_none [] rs h = refl
indexed_none (m ∷ ms) rs h = absurd (ground arith)

indexed_read :
    (net : Net) (file : IndexFile) (ms : List SnapshotManifest)
    → all_indexed ms (snapshots_of (read net file)) ≡ true
    → all_indexed ms (rows file) ≡ true
unfolding read
indexed_read net file ms h = elim (Option-cases net.download_fails) [
  | inl e ↦ ground (arith, indexed_none ms (rows file))
  | inr (f, e) ↦ ground (arith, indexed_none ms (rows file))
]

-- Every manifest has a row, and HEAD names the newest.
abbrev pub IsRepaired : List SnapshotManifest → SnapshotManifest → Disk → Type 0
IsRepaired ms newest disk =
    (all_indexed ms (rows disk.index_file) ≡ true) × (names_head disk.head_file newest.id ≡ true)

-- The report of a step, none where the step throws.
abbrev pub report_of : Disk × Result StartupReport → Option StartupReport
report_of (disk, ok r) = some r
report_of (disk, err f) = none

pub reconcile_snapshot_index_lem :
    (env : RecoveryEnv) (ms : List SnapshotManifest) (disk : Disk) (r r' : StartupReport)
    → let out = reconcile_snapshot_index env ms disk r in
      report_of out ≡ some r'
      → (all_indexed ms (rows out.0.index_file) ≡ true)
        × (out.0.head_file ≡ disk.head_file)
        × (r'.state ≡ healthy → out.0 ≡ disk)
unfolding reconcile_snapshot_index rebuild rebuild_from_entries
reconcile_snapshot_index_lem env ms disk r r' h =
    elim (Bool-cases (all_indexed ms (snapshots_of (read env.index_net disk.index_file)))) [
      | inl e ↦ (
        ground (arith, indexed_read env.index_net disk.index_file ms e),
        ground arith,
        (λ k. ground arith),
      )
      | inr e ↦ elim (Option-cases env.rebuild_net.upload_fails) [
        | inl u ↦ (ground (arith, indexed_self ms), ground arith, (λ k. ground arith))
        | inr (f, u) ↦ absurd (ground arith)
      ]
    ]

not_healthy : (st : StartupState) → is_healthy st ≡ false → st ≢ healthy
not_healthy st h e = absurd (ground arith)

raised :
    (st : StartupState) (r : StartupReport)
    → is_healthy st ≡ false
    → is_healthy (raise st r).state ≡ false
raised st r h = ground arith

pub reconcile_head_lem :
    (env : RecoveryEnv) (newest : SnapshotManifest) (ms : List SnapshotManifest) (disk : Disk)
    (r r' : StartupReport)
    → let out = reconcile_head env newest ms disk r in
      report_of out ≡ some r'
      → (names_head out.0.head_file newest.id ≡ true)
        × (out.0.index_file ≡ disk.index_file)
        × (r'.state ≡ healthy → (out.0 ≡ disk) × (r ≡ r'))
unfolding reconcile_head rewrite_head
reconcile_head_lem env newest ms disk r r' h = elim (Option-cases env.head_upload_fails) [
  | inl e ↦ (
    ground (arith, eqb_iff Text-discrete newest.id newest.id),
    ground arith,
    (λ k. ground (arith, raised head_points_to_missing r refl, raised head_stale r refl)),
  )
  | inr (f, e) ↦ (ground arith, ground arith, (λ k. ground arith))
]
