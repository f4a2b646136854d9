-- ===== src/Backup/Agreement.antt =====
-- The local index after an incremental against the state that a restore of it reconstructs.
use obsidian_archivist.Restore.Laws.{at-apply_deleted, at-apply_files, at-replay, last_at, at}
use obsidian_archivist.Common.Text.{Text-discrete, Text}
use obsidian_archivist.Backup.LocalIndex.{move_entry, move_entries, files_after}
use obsidian_archivist.Restore.Replay.{apply_deleted, replay, apply_rename, apply_renames}
use obsidian_archivist.Model.Manifest.{RenameEntry, Files, SnapshotManifest}
use obsidian_archivist.Common.{
  put, erase, get-put, inr, get-erase, inl, Option-cases, ◌⊎◌, refl, true, arith, false, get, ◌≡◌,
  is_some, has, Bool, List, [], ◌∷◌,
}

abbrev pub lists : Files → Text → Bool
lists fs p = is_some (get Text-discrete fs p)

-- The renames of a manifest that lists the files, on a state: no rename is onto a path that is
-- there, and a rename of a listed path is onto a listed path.
abbrev pub Settled : Files → Files → List RenameEntry → Type 0
Settled listed state [] = Unit {0}
Settled listed state (r ∷ rs) =
    (lists state r.to ≡ false)
    × ((lists listed r.to ≡ true) ⊎ (lists listed r.from ≡ false))
    × Settled listed (apply_rename state r) rs

-- The two states agree at every path that the manifest does not list.
abbrev pub AgreeOff : Files → Files → Files → Type 0
AgreeOff listed state files = (p : Text) → lists listed p ≡ false → at state p ≡ at files p

rename-AgreeOff :
    (listed state files : Files) (r : RenameEntry)
    → lists state r.to ≡ false
    → (lists listed r.to ≡ true) ⊎ (lists listed r.from ≡ false)
    → AgreeOff listed state files
    → AgreeOff listed (apply_rename state r) (move_entry listed files r)
unfolding apply_rename move_entry
rename-AgreeOff listed state files r free settled same_off p off =
    elim (Option-cases (at state r.from)) [
      | inl e ↦ elim (Option-cases (at files r.from)) [
        | inl f ↦ ground (arith, same_off p off, get-erase Text-discrete files r.from p)
        | inr (w, f) ↦ ground (
          arith,
          same_off p off,
          same_off r.from,
          get-erase Text-discrete files r.from p,
          get-put Text-discrete (erase Text-discrete files r.from) r.to p w,
        )
      ]
      | inr (v, e) ↦ elim (Option-cases (at files r.from)) [
        | inl f ↦ ground (
          arith,
          same_off p off,
          same_off r.from,
          get-erase Text-discrete files r.from p,
          get-put Text-discrete state r.to p v,
          get-erase Text-discrete (put Text-discrete state r.to v) r.from p,
        )
        | inr (w, f) ↦ ground (
          arith,
          same_off p off,
          same_off r.from,
          get-erase Text-discrete files r.from p,
          get-put Text-discrete (erase Text-discrete files r.from) r.to p w,
          get-put Text-discrete state r.to p v,
          get-erase Text-discrete (put Text-discrete state r.to v) r.from p,
        )
      ]
    ]

renames-AgreeOff :
    (listed state files : Files) (rs : List RenameEntry)
    → Settled listed state rs
    → AgreeOff listed state files
    → AgreeOff listed (apply_renames state rs) (move_entries listed files rs)
unfolding apply_renames move_entries
renames-AgreeOff listed state files [] s a = a
renames-AgreeOff listed state files (r ∷ rs) s a =
    renames-AgreeOff listed (apply_rename state r) (move_entry listed files r) rs s.2
      (rename-AgreeOff listed state files r s.0 s.1 a)

-- No path is both listed and deleted.
abbrev pub Disjoint : SnapshotManifest → Type 0
Disjoint m = (p : Text) → has Text-discrete m.deleted p ≡ true → lists m.files p ≡ false

pub last_at-lists : (fs : Files) (p : Text) → is_some (last_at fs p) ≡ lists fs p
last_at-lists [] p = refl
last_at-lists ((q, e) ∷ fs) p = ground (arith, last_at-lists fs p)

-- If the local index agrees with the state that a restore reconstructs, then so it does after an
-- incremental whose renames are settled and that lists no path that it deletes: every path has the
-- same entry in the saved index and in the state after the replay of the manifest.
pub files_after-eq-replay :
    (m : SnapshotManifest) (state files : Files)
    → Settled m.files state m.renames
    → Disjoint m
    → ((p : Text) → at state p ≡ at files p)
    → (p : Text) → at (files_after m files) p ≡ at (replay state m) p
unfolding files_after
files_after-eq-replay m state files settled disjoint agree p = ground (
  arith,
  at-replay state m p,
  at-apply_files (apply_deleted (move_entries m.files files m.renames) m.deleted) m.files p,
  at-apply_deleted (move_entries m.files files m.renames) m.deleted p,
  renames-AgreeOff m.files state files m.renames settled
      (λ (q : Text) (_ : lists m.files q ≡ false). agree q) p,
  disjoint p,
  last_at-lists m.files p,
)
