-- ===== src/Backup/IncFiles.antt =====
-- What the files that an incremental reads give its manifest.
use obsidian_archivist.Common.{◌⊎◌}
use obsidian_archivist.Paths.Stamps.{derive_id}
use obsidian_archivist.Backup.ReadLaws.{
  HaveHashes, HaveContent, AreRead, HaveHashes-HaveContent, put-HaveHashes, get-hashes_of,
  put-are_covered, are_covered,
}
use obsidian_archivist.Model.Failure.{ok, Result}
use obsidian_archivist.Backup.UploadLaws.{hashes_of}
use obsidian_archivist.Model.Manifest.{FileEntry, inc, SnapshotManifest, Files, RenameEntry}
use obsidian_archivist.Backup.Uploads.{FileData, Octets, ReadFile}
use obsidian_archivist.Common.Text.{Text-discrete, Text}
use obsidian_archivist.Backup.IncRuns.{inc_changes, size_of, mtime_of, find_file}
use obsidian_archivist.Backup.Building.{
  BuildInput, IncChange, VaultFile, build_inc_manifest, inc_files,
}
use obsidian_archivist.Common.{
  refl, inr, arith, put, inl, get, Option-cases, true, ◌≡◌, has, all, some, List, [], ◌∷◌,
}

inc_files-are_covered :
    (d : FileData) (cs : List IncChange) (fs : Files)
    → all (λ (c : IncChange). has Text-discrete (hashes_of d) c.hash) cs ≡ true
    → are_covered d fs ≡ true
    → are_covered d (inc_files cs fs) ≡ true
unfolding inc_files
inc_files-are_covered d [] fs h c = c
inc_files-are_covered d (x ∷ cs) fs h c =
    let entry : FileEntry = record { hash = x.hash; size = x.size; mtime = x.mtime } in
    inc_files-are_covered d cs (put Text-discrete fs x.path entry) (ground arith)
      (put-are_covered d fs x.path entry c (ground arith))

inc_changes-are_covered :
    (vs : List VaultFile) (d : FileData) (ps : List Text)
    → all (λ (c : IncChange). has Text-discrete (hashes_of d) c.hash) (inc_changes vs d ps) ≡ true
unfolding inc_changes
inc_changes-are_covered vs d [] = refl
inc_changes-are_covered vs d (p ∷ ps) = elim (Option-cases (get Text-discrete d p)) [
  | inl e ↦ ground (arith, inc_changes-are_covered vs d ps)
  | inr (r, e) ↦ ground (arith, inc_changes-are_covered vs d ps, get-hashes_of d p r e)
]

-- The manifest of an incremental is incremental, names its parent, and holds only hashes that were
-- read.
pub build_inc_manifest_lem :
    (parent : Text) (vs : List VaultFile) (d : FileData) (ps deleted : List Text)
    (renames : List RenameEntry) (input : BuildInput) (m : SnapshotManifest)
    → build_inc_manifest parent (inc_changes vs d ps) deleted renames input ≡ ok m
    → (m.kind ≡ inc)
      × (m.parent_id ≡ some parent)
      × (are_covered d m.files ≡ true)
      × (derive_id input.created_at inc ≡ some m.id)
unfolding build_inc_manifest
build_inc_manifest_lem parent vs d ps deleted renames input m h =
    elim (Option-cases (derive_id input.created_at inc)) [
      | inl n ↦ absurd (ground arith)
      | inr (id, n) ↦ ground (
        arith,
        inc_files-are_covered d (inc_changes vs d ps) [] (inc_changes-are_covered vs d ps) refl,
      )
    ]

-- The changes have the hashes of what their paths were read as.
abbrev EachHash : FileData → List IncChange → Type 0
EachHash d [] = Unit {0}
EachHash d (c ∷ cs) =
    ((r : ReadFile) × (get Text-discrete d c.path ≡ some r) × (c.hash ≡ r.hash)) × EachHash d cs

inc_changes_cons :
    (vs : List VaultFile) (d : FileData) (p : Text) (ps : List Text)
    → (inc_changes vs d (p ∷ ps) ≡ inc_changes vs d ps)
      ⊎ ((r : ReadFile) × (c : IncChange) × (get Text-discrete d p ≡ some r)
          × (c.path ≡ p)
          × (c.hash ≡ r.hash)
          × (inc_changes vs d (p ∷ ps) ≡ c ∷ inc_changes vs d ps))
unfolding inc_changes
inc_changes_cons vs d p ps = elim (Option-cases (get Text-discrete d p)) [
  | inl e ↦ inl (ground arith)
  | inr (r, e) ↦
      let c : IncChange = record {
        path = p;
        hash = r.hash;
        size = size_of (find_file p vs) r.bytes;
        mtime = mtime_of (find_file p vs);
      } in
      inr (r, c, e, refl, refl, ground arith)
]

inc_changes_nil : (vs : List VaultFile) (d : FileData) → inc_changes vs d [] ≡ []
unfolding inc_changes
inc_changes_nil vs d = refl

inc_changes-EachHash :
    (vs : List VaultFile) (d : FileData) (ps : List Text) → EachHash d (inc_changes vs d ps)
inc_changes-EachHash vs d [] = rw (inc_changes_nil vs d) tt
inc_changes-EachHash vs d (p ∷ ps) = elim (inc_changes_cons vs d p ps) [
  | inl same_as ↦ rw same_as (inc_changes-EachHash vs d ps)
  | inr (r, c, g, at_path, hashed, more) ↦
      rw more ((r, rw at_path g, hashed), inc_changes-EachHash vs d ps)
]

inc_files-HaveHashes :
    (d : FileData) (cs : List IncChange) (fs : Files)
    → EachHash d cs
    → HaveHashes d fs
    → HaveHashes d (inc_files cs fs)
unfolding inc_files
inc_files-HaveHashes d [] fs h k = k
inc_files-HaveHashes d (c ∷ cs) fs ((r, g, f), h) k =
    let entry : FileEntry = record { hash = c.hash; size = c.size; mtime = c.mtime } in
    inc_files-HaveHashes d cs (put Text-discrete fs c.path entry) h
      (put-HaveHashes d fs c.path entry r k g f)

-- The files of an incremental manifest have the hashes of what the vault gives.
pub build_inc_manifest-HaveContent :
    (parent : Text) (vs : List VaultFile) (d : FileData) (ps deleted : List Text)
    (renames : List RenameEntry) (input : BuildInput) (m : SnapshotManifest)
    (read : Text → Result Octets) (hasher : Octets → Text)
    → AreRead read hasher d
    → build_inc_manifest parent (inc_changes vs d ps) deleted renames input ≡ ok m
    → HaveContent read hasher m.files
unfolding build_inc_manifest
build_inc_manifest-HaveContent parent vs d ps deleted renames input m read hasher good h =
    elim (Option-cases (derive_id input.created_at inc)) [
      | inl n ↦ absurd (ground arith)
      | inr (id, n) ↦
          let cs = inc_changes vs d ps in
          let files : m.files ≡ inc_files cs [] = ground arith in
          rw files (
            HaveHashes-HaveContent read hasher d (inc_files cs []) good (
              inc_files-HaveHashes d cs [] (inc_changes-EachHash vs d ps)
                (λ q x y. absurd (ground arith))))
    ]
