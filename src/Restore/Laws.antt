-- ===== src/Restore/Laws.antt =====
-- What a path holds after the replay of a manifest.
use obsidian_archivist.Common.Text.{Text-discrete, same, Text}
use obsidian_archivist.Model.Manifest.{SnapshotManifest, RenameEntry, Files, FileEntry}
use obsidian_archivist.Restore.Replay.{
  apply_renames, replay, apply_deleted, apply_files, apply_rename,
}
use obsidian_archivist.Common.{
  inr, inl, Option-cases, refl, get-put, get-erase, erase, put, arith, true, has, is_some, ◌≡◌, get,
  if◌then◌else◌, Option, none, some, List, [], ◌∷◌,
}

abbrev pub at : Files → Text → Option FileEntry
at = get Text-discrete

abbrev pub or_else : Option FileEntry → Option FileEntry → Option FileEntry
or_else none b = b
or_else (some a) b = some a

-- The last entry that a list of writes gives a path.
abbrev pub last_at : Files → Text → Option FileEntry
last_at [] p = none
last_at ((q, e) ∷ fs) p = or_else (last_at fs p) (if same q p then some e else none)

pub at-apply_files :
    (state fs : Files) (p : Text)
    → at (apply_files state fs) p ≡ or_else (last_at fs p) (at state p)
unfolding apply_files
at-apply_files state [] p = refl
at-apply_files state ((q, e) ∷ fs) p =
    ground
      (arith, at-apply_files (put Text-discrete state q e) fs p, get-put Text-discrete state q p e)

pub at-apply_deleted :
    (state : Files) (ps : List Text) (p : Text)
    → at (apply_deleted state ps) p ≡ (if has Text-discrete ps p then none else at state p)
unfolding apply_deleted
at-apply_deleted state [] p = refl
at-apply_deleted state (q ∷ ps) p =
    ground (
      arith,
      at-apply_deleted (erase Text-discrete state q) ps p,
      get-erase Text-discrete state q p,
    )

pub at-apply_rename :
    (state : Files) (r : RenameEntry) (p : Text)
    → is_some (at state r.from) ≡ true
    → at state r.to ≡ none
    → at (apply_rename state r) p
      ≡ (if same r.from p then none else if same r.to p then at state r.from else at state p)
unfolding apply_rename
at-apply_rename state r p h k = elim (Option-cases (at state r.from)) [
  | inl e ↦ absurd (ground arith)
  | inr (v, e) ↦
      rw (e, apply_rename, k)
        (ground (
          arith,
          get-put Text-discrete state r.to p v,
          get-erase Text-discrete (put Text-discrete state r.to v) r.from p,
        ))
]

-- A path that a manifest deletes is gone after its replay, whatever its renames and files say; any
-- other path that the manifest lists has the last entry listed for it; every other path has what
-- the renames left there.
pub at-replay :
    (state : Files) (m : SnapshotManifest) (p : Text)
    → at (replay state m) p ≡ (
        if has Text-discrete m.deleted p
        then none
        else or_else (last_at m.files p) (at (apply_renames state m.renames) p))
unfolding replay
at-replay state m p = ground (
  arith,
  at-apply_deleted (apply_files (apply_renames state m.renames) m.files) m.deleted p,
  at-apply_files (apply_renames state m.renames) m.files p,
)
