-- ===== src/Startup/Laws.antt =====
-- What a recovery leaves, and what its report says.
use obsidian_archivist.Common.{any}
use obsidian_archivist.Restore.Laws.{last_at, or_else, at}
use obsidian_archivist.Startup.Recovery.{needs_update, merge_files, reconcile_index}
use obsidian_archivist.Common.Text.{
  Text, not-less_antisymm, less, same, Text-discrete, less_asymm, not-less_trans, less_irrefl,
}
use obsidian_archivist.Startup.Manifests.{is_newer, find_newest}
use obsidian_archivist.Model.Manifest.{Files, LocalIndex, FileEntry, SnapshotManifest}
use obsidian_archivist.Common.{
  get-put, put, if◌then◌else◌, get, refl, none, some, Option, ap, inr, inl, eqb_iff, Bool-cases,
  arith, false, true, not, ◌≡◌, all, List, [], ◌∷◌,
}

is_newer_trans :
    (a b c : SnapshotManifest) → is_newer a b ≡ false → is_newer b c ≡ false → is_newer a c ≡ false
is_newer_trans a b c h k = elim (Bool-cases (same a.created_at c.created_at)) [
  | inr e ↦ ground (arith, not-less_trans c.created_at b.created_at a.created_at)
  | inl e ↦
      (let same_time = (eqb_iff Text-discrete a.created_at c.created_at).0 e in
        let late = ap (λ t. less t b.created_at) same_time in
        ground (
          arith,
          late,
          not-less_trans c.created_at b.created_at a.created_at,
          not-less_antisymm a.created_at b.created_at,
          eqb_iff Text-discrete a.created_at b.created_at,
          eqb_iff Text-discrete b.created_at c.created_at,
          not-less_trans c.id b.id a.id,
        ))
]

is_newer_irrefl : (a : SnapshotManifest) → is_newer a a ≡ false
is_newer_irrefl a = ground (arith, less_irrefl a.created_at, less_irrefl a.id)

is_newer_asymm : (a b : SnapshotManifest) → is_newer a b ≡ true → is_newer b a ≡ false
is_newer_asymm a b h = ground (
  arith,
  less_asymm a.created_at b.created_at,
  less_asymm b.created_at a.created_at,
  less_asymm b.id a.id,
  eqb_iff Text-discrete a.created_at b.created_at,
  eqb_iff Text-discrete b.created_at a.created_at,
  less_irrefl a.created_at,
)

-- No manifest of the list, and none that it starts from, is newer than the one that it finds.
pub find_newest_newest :
    (best : SnapshotManifest) (ms : List SnapshotManifest)
    → all (λ m. not (is_newer m (find_newest best ms))) (best ∷ ms) ≡ true
unfolding find_newest
find_newest_newest best [] = ground (arith, is_newer_irrefl best)
find_newest_newest best (m ∷ ms) = ground (
  arith,
  find_newest_newest m ms,
  find_newest_newest best ms,
  is_newer_trans best m (find_newest m ms),
  is_newer_trans m best (find_newest best ms),
  is_newer_asymm m best,
)

-- It is one of them.
pub find_newest_member :
    (best : SnapshotManifest) (ms : List SnapshotManifest)
    → any (λ m. same m.id (find_newest best ms).id) (best ∷ ms) ≡ true
unfolding find_newest
find_newest_member best [] = ground (arith, eqb_iff Text-discrete best.id best.id)
find_newest_member best (m ∷ ms) =
    ground (arith, find_newest_member best ms, find_newest_member m ms)

abbrev pub entry_hash : Option FileEntry → Option Text
entry_hash none = none
entry_hash (some e) = some e.hash

merge_files_hash :
    (files fs : Files) (p : Text)
    → entry_hash (at (merge_files files fs) p) ≡ entry_hash (or_else (last_at fs p) (at files p))
unfolding merge_files
merge_files_hash files [] p = refl
merge_files_hash files ((q, e) ∷ fs) p =
    let here = get Text-discrete files q in
    let files' = if needs_update here e then put Text-discrete files q e else files in
    ground (
      arith,
      merge_files_hash files' fs p,
      get-put Text-discrete files q p e,
      eqb_iff Text-discrete q p,
    )

-- After the merge a path has the hash that the manifest lists for it last, or, where the manifest
-- does not list it, the hash that the local index had.
pub reconcile_index_hashes :
    (index : LocalIndex) (m : SnapshotManifest) (p : Text)
    → entry_hash (at (reconcile_index index m).files p)
      ≡ entry_hash (or_else (last_at m.files p) (at index.files p))
unfolding reconcile_index
reconcile_index_hashes index m p = merge_files_hash index.files m.files p
