-- ===== src/Restore/Replay.antt =====
-- src/services/RestoreService.ts, `materializeVaultStateAt`: the replay of one incremental manifest
-- on the state of the vault, and of a chain from its full manifest on.
use obsidian_archivist.Common.Text.{Text-discrete, Text}
use obsidian_archivist.Model.Manifest.{RenameEntry, SnapshotManifest, Files}
use obsidian_archivist.Common.{
  reverse, is_some, if◌then◌else◌, get, erase, put, none, some, List, [], ◌∷◌,
}

-- One turn of the loop over the renames. A rename of nothing, and one onto a path that is there,
-- change nothing.
unfoldable pub apply_rename : Files → RenameEntry → Files
apply_rename state r = elim (get Text-discrete state r.from) [
  | none ↦ state
  | some entry ↦
      if is_some (get Text-discrete state r.to)
      then state
      else erase Text-discrete (put Text-discrete state r.to entry) r.from
]

unfoldable pub apply_renames : Files → List RenameEntry → Files
unfolding apply_rename
apply_renames state [] = state
apply_renames state (r ∷ rs) = apply_renames (apply_rename state r) rs

unfoldable pub apply_files : Files → Files → Files
apply_files state [] = state
apply_files state ((p, entry) ∷ fs) = apply_files (put Text-discrete state p entry) fs

unfoldable pub apply_deleted : Files → List Text → Files
apply_deleted state [] = state
apply_deleted state (p ∷ ps) = apply_deleted (erase Text-discrete state p) ps

unfoldable pub replay : Files → SnapshotManifest → Files
unfolding apply_renames apply_files apply_deleted
replay state m = apply_deleted (apply_files (apply_renames state m.renames) m.files) m.deleted

unfoldable pub replay_all : Files → List SnapshotManifest → Files
unfolding replay
replay_all state [] = state
replay_all state (m ∷ ms) = replay_all (replay state m) ms

-- The chain from its full manifest on.
abbrev pub from_oldest : List SnapshotManifest → Files
from_oldest [] = []
from_oldest (m ∷ ms) = replay_all m.files ms

-- The chain is given newest first and ends in its full manifest. The source throws before this
-- on an empty chain.
unfoldable pub materialize : List SnapshotManifest → Files
unfolding replay_all
materialize chain = from_oldest (reverse chain)
