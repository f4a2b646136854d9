-- ===== src/Backup/ReadLaws.antt =====
-- What the files that a backup reads give its manifest.
use obsidian_archivist.Paths.Stamps.{derive_id}
use obsidian_archivist.Backup.Runs.{paths_of}
use obsidian_archivist.Common.{sym, ◌∙◌, ◌||◌, is_some, get-put, eqb_iff, Bool-cases}
use obsidian_archivist.Restore.Walk.{Result-cases}
use obsidian_archivist.Backup.UploadLaws.{hashes_of, are_read}
use obsidian_archivist.Model.Manifest.{full, SnapshotManifest, FileEntry, Files}
use obsidian_archivist.Common.Text.{Text-discrete, same, Text}
use obsidian_archivist.Backup.Building.{BuildInput, VaultFile, full_files, build_full_manifest}
use obsidian_archivist.Backup.Uploads.{
  batches, put_all, ReadFile, Octets, FileData, read_batch, read_batches, read_and_hash_files,
}
use obsidian_archivist.Model.Failure.{Result, ok}
use obsidian_archivist.Common.{
  refl, inl, put, inr, has, ℕ, get, Option-cases, arith, true, all, ◌≡◌, Bool, some, List, [], ◌∷◌,
}

pub ok_injective {ℓ} : {A : Type ℓ} {a b : A} → ok a ≡ ok b → a ≡ b
ok_injective h = ground arith

put-are_read :
    (hasher : Octets → Text) (d : FileData) (p : Text) (r : ReadFile)
    → are_read hasher d ≡ true
    → same (hasher r.bytes) r.hash ≡ true
    → are_read hasher (put Text-discrete d p r) ≡ true
put-are_read hasher [] p r h k = ground arith
put-are_read hasher (e ∷ d) p r h k = ground (arith, put-are_read hasher d p r)

put_all-are_read :
    (hasher : Octets → Text) (d rs : FileData)
    → are_read hasher d ≡ true
    → are_read hasher rs ≡ true
    → are_read hasher (put_all d rs) ≡ true
put_all-are_read hasher d [] h k = h
put_all-are_read hasher d (e ∷ rs) h k =
    put_all-are_read hasher (put Text-discrete d e.0 e.1) rs
      (put-are_read hasher d e.0 e.1 h (ground arith)) (ground arith)

read_batch-are_read :
    (read : Text → Result Octets) (hasher : Octets → Text) (ps : List Text) (d : FileData)
    → read_batch read hasher ps ≡ ok d
    → are_read hasher d ≡ true
unfolding read_batch
read_batch-are_read read hasher [] d h = ground arith
read_batch-are_read read hasher (p ∷ ps) d h = elim (Result-cases (read p)) [
  | inr (f, e) ↦ absurd (ground arith)
  | inl (b, e) ↦ elim (Result-cases (read_batch read hasher ps)) [
    | inr (f, g) ↦ absurd (ground arith)
    | inl (rest, g) ↦ ground (arith, read_batch-are_read read hasher ps rest g)
  ]
]

read_batches-are_read :
    (read : Text → Result Octets) (hasher : Octets → Text) (bs : List (List Text))
    (seen d : FileData)
    → are_read hasher seen ≡ true
    → read_batches read hasher bs seen ≡ ok d
    → are_read hasher d ≡ true
unfolding read_batches
read_batches-are_read read hasher [] seen d s h = ground arith
read_batches-are_read read hasher (b ∷ bs) seen d s h =
    elim (Result-cases (read_batch read hasher b)) [
      | inr (f, e) ↦ absurd (ground arith)
      | inl (rs, e) ↦
          read_batches-are_read read hasher bs (put_all seen rs) d
            (put_all-are_read hasher seen rs s (read_batch-are_read read hasher b rs e))
            (ground arith)
    ]

-- Each file that was read has the hash of the bytes that were read with it, and that are uploaded.
pub read_and_hash_files-are_read :
    (read : Text → Result Octets) (hasher : Octets → Text) (size : ℕ) (ps : List Text)
    (d : FileData)
    → read_and_hash_files read hasher size ps ≡ ok d
    → are_read hasher d ≡ true
unfolding read_and_hash_files
read_and_hash_files-are_read read hasher size ps d h =
    read_batches-are_read read hasher (batches size ps) [] d refl h

-- What a path was read as is what the vault gives for it, with its hash.
abbrev pub AreRead : (Text → Result Octets) → (Octets → Text) → FileData → Type 0
AreRead read hasher d =
    (p : Text) (r : ReadFile)
    → get Text-discrete d p ≡ some r
    → (read p ≡ ok r.bytes) × (r.hash ≡ hasher r.bytes)

abbrev EachRead : (Text → Result Octets) → (Octets → Text) → FileData → Type 0
EachRead read hasher [] = Unit {0}
EachRead read hasher ((p, r) ∷ rs) =
    ((read p ≡ ok r.bytes) × (r.hash ≡ hasher r.bytes)) × EachRead read hasher rs

read_batch-EachRead :
    (read : Text → Result Octets) (hasher : Octets → Text) (ps : List Text) (d : FileData)
    → read_batch read hasher ps ≡ ok d
    → EachRead read hasher d
unfolding read_batch
read_batch-EachRead read hasher [] d h = rw (sym (ok_injective h)) tt
read_batch-EachRead read hasher (p ∷ ps) d h = elim (Result-cases (read p)) [
  | inr (f, e) ↦ absurd (ground arith)
  | inl (b, e) ↦ elim (Result-cases (read_batch read hasher ps)) [
    | inr (f, g) ↦ absurd (ground arith)
    | inl (rest, g) ↦
        let found : ((p, record { hash = hasher b; bytes = b }) ∷ rest) ≡ d = ground arith in
        rw (sym found) ((e, refl), read_batch-EachRead read hasher ps rest g)
  ]
]

put_all-AreRead :
    (read : Text → Result Octets) (hasher : Octets → Text) (d rs : FileData)
    → AreRead read hasher d
    → EachRead read hasher rs
    → AreRead read hasher (put_all d rs)
put_all-AreRead read hasher d [] h k = h
put_all-AreRead read hasher d ((q, s) ∷ rs) h (here, k) =
    put_all-AreRead read hasher (put Text-discrete d q s) rs
      (λ p r g. (
        ground (arith, get-put Text-discrete d q p s, h p r, here, eqb_iff Text-discrete q p),
        ground (arith, get-put Text-discrete d q p s, h p r, here),
      ))
      k

read_batches-AreRead :
    (read : Text → Result Octets) (hasher : Octets → Text) (bs : List (List Text))
    (seen d : FileData)
    → AreRead read hasher seen
    → read_batches read hasher bs seen ≡ ok d
    → AreRead read hasher d
unfolding read_batches
read_batches-AreRead read hasher [] seen d s h = rw (sym (ok_injective h)) s
read_batches-AreRead read hasher (b ∷ bs) seen d s h =
    elim (Result-cases (read_batch read hasher b)) [
      | inr (f, e) ↦ absurd (ground arith)
      | inl (rs, e) ↦
          read_batches-AreRead read hasher bs (put_all seen rs) d
            (put_all-AreRead read hasher seen rs s (read_batch-EachRead read hasher b rs e))
            (ground arith)
    ]

pub read_and_hash_files-AreRead :
    (read : Text → Result Octets) (hasher : Octets → Text) (size : ℕ) (ps : List Text)
    (d : FileData)
    → read_and_hash_files read hasher size ps ≡ ok d
    → AreRead read hasher d
unfolding read_and_hash_files
read_and_hash_files-AreRead read hasher size ps d h =
    read_batches-AreRead read hasher (batches size ps) [] d (λ p r g. absurd (ground arith)) h

-- Every hash of the files is one of those that were read.
abbrev pub are_covered : FileData → Files → Bool
are_covered d fs = all (λ (f : Text × FileEntry). has Text-discrete (hashes_of d) f.1.hash) fs

pub put-are_covered :
    (d : FileData) (fs : Files) (p : Text) (e : FileEntry)
    → are_covered d fs ≡ true
    → has Text-discrete (hashes_of d) e.hash ≡ true
    → are_covered d (put Text-discrete fs p e) ≡ true
put-are_covered d [] p e h k = ground arith
put-are_covered d (f ∷ fs) p e h k = ground (arith, put-are_covered d fs p e)

pub get-hashes_of :
    (d : FileData) (p : Text) (r : ReadFile)
    → get Text-discrete d p ≡ some r
    → has Text-discrete (hashes_of d) r.hash ≡ true
get-hashes_of [] p r h = absurd (ground arith)
get-hashes_of (e ∷ d) p r h = ground (arith, get-hashes_of d p r)

full_files-are_covered :
    (vs : List VaultFile) (d : FileData) (fs result : Files)
    → are_covered d fs ≡ true
    → full_files vs d fs ≡ ok result
    → are_covered d result ≡ true
unfolding full_files
full_files-are_covered [] d fs result c h = ground arith
full_files-are_covered (v ∷ vs) d fs result c h = elim (Option-cases (get Text-discrete d v.path)) [
  | inl e ↦ absurd (ground arith)
  | inr (r, e) ↦
      let entry : FileEntry = record { hash = r.hash; size = v.size; mtime = v.mtime } in
      full_files-are_covered vs d (put Text-discrete fs v.path entry) result
        (put-are_covered d fs v.path entry c (get-hashes_of d v.path r e)) (ground arith)
]

full_files-paths :
    (vs : List VaultFile) (d : FileData) (fs result : Files) (p : Text)
    → full_files vs d fs ≡ ok result
    → is_some (get Text-discrete result p)
      ≡ (has Text-discrete (paths_of vs) p || is_some (get Text-discrete fs p))
unfolding full_files
full_files-paths [] d fs result p h = ground arith
full_files-paths (v ∷ vs) d fs result p h = elim (Option-cases (get Text-discrete d v.path)) [
  | inl e ↦ absurd (ground arith)
  | inr (r, e) ↦
      let entry : FileEntry = record { hash = r.hash; size = v.size; mtime = v.mtime } in
      ground (
        arith,
        full_files-paths vs d (put Text-discrete fs v.path entry) result p (ground arith),
        get-put Text-discrete fs v.path p entry,
      )
]

-- Each entry has the hash of what its path was read as.
abbrev pub HaveHashes : FileData → Files → Type 0
HaveHashes d fs =
    (p : Text) (e : FileEntry)
    → get Text-discrete fs p ≡ some e
    → (r : ReadFile) × (get Text-discrete d p ≡ some r) × (e.hash ≡ r.hash)

pub put-HaveHashes :
    (d : FileData) (fs : Files) (q : Text) (entry : FileEntry) (r : ReadFile)
    → HaveHashes d fs
    → get Text-discrete d q ≡ some r
    → entry.hash ≡ r.hash
    → HaveHashes d (put Text-discrete fs q entry)
put-HaveHashes d fs q entry r h g k p e f = elim (Bool-cases (same q p)) [
  | inl s ↦
      let here = (eqb_iff Text-discrete q p).0 s in
      (r, rw (sym here) g, ground (arith, get-put Text-discrete fs q p entry))
  | inr s ↦ h p e (ground (arith, get-put Text-discrete fs q p entry))
]

full_files-HaveHashes :
    (vs : List VaultFile) (d : FileData) (fs result : Files)
    → HaveHashes d fs
    → full_files vs d fs ≡ ok result
    → HaveHashes d result
unfolding full_files
full_files-HaveHashes [] d fs result h k = rw (sym (ok_injective k)) h
full_files-HaveHashes (v ∷ vs) d fs result h k = elim (Option-cases (get Text-discrete d v.path)) [
  | inl e ↦ absurd (ground arith)
  | inr (r, e) ↦
      let entry : FileEntry = record { hash = r.hash; size = v.size; mtime = v.mtime } in
      full_files-HaveHashes vs d (put Text-discrete fs v.path entry) result
        (put-HaveHashes d fs v.path entry r h e refl) (ground arith)
]

-- The files of a manifest are those of the vault: it has the paths of the vault and no other, each
-- with the hash of what the vault gives for it.
abbrev pub Pictures : List VaultFile → (Text → Result Octets) → (Octets → Text) → Files → Type 0
Pictures vs read hasher fs =
    (p : Text)
    → (is_some (get Text-discrete fs p) ≡ has Text-discrete (paths_of vs) p)
      × ((e : FileEntry)
          → get Text-discrete fs p ≡ some e
          → (b : Octets) × (read p ≡ ok b) × (e.hash ≡ hasher b))

-- Each entry has the hash of the bytes that the vault gives for its path.
abbrev pub HaveContent : (Text → Result Octets) → (Octets → Text) → Files → Type 0
HaveContent read hasher fs =
    (p : Text) (e : FileEntry)
    → get Text-discrete fs p ≡ some e
    → (b : Octets) × (read p ≡ ok b) × (e.hash ≡ hasher b)

pub HaveHashes-HaveContent :
    (read : Text → Result Octets) (hasher : Octets → Text) (d : FileData) (fs : Files)
    → AreRead read hasher d
    → HaveHashes d fs
    → HaveContent read hasher fs
HaveHashes-HaveContent read hasher d fs good h p e g =
    let (r, f, k) = h p e g in
    let (bytes_read, hashed) = good p r f in (r.bytes, bytes_read, k ∙ hashed)

pub build_full_manifest-Pictures :
    (vs : List VaultFile) (d : FileData) (input : BuildInput) (m : SnapshotManifest)
    (read : Text → Result Octets) (hasher : Octets → Text)
    → AreRead read hasher d
    → build_full_manifest vs d input ≡ ok m
    → Pictures vs read hasher m.files
unfolding build_full_manifest
build_full_manifest-Pictures vs d input m read hasher good h p =
    elim (Result-cases (full_files vs d [])) [
      | inr (f, e) ↦ absurd (ground arith)
      | inl (fs, e) ↦ elim (Option-cases (derive_id input.created_at full)) [
        | inl n ↦ absurd (ground arith)
        | inr (id, n) ↦
            let files : m.files ≡ fs = ground arith in
            (
              ground (arith, full_files-paths vs d [] fs p e),
              λ entry g.
                  HaveHashes-HaveContent read hasher d fs good
                    (full_files-HaveHashes vs d [] fs (λ q x y. absurd (ground arith)) e) p entry
                    (ground arith),
            )
      ]
    ]

-- The manifest of a full snapshot is full, has no parent, holds only hashes that were read, and has
-- the id that its timestamp gives.
pub build_full_manifest_lem :
    (vs : List VaultFile) (d : FileData) (input : BuildInput) (m : SnapshotManifest)
    → build_full_manifest vs d input ≡ ok m
    → (m.kind ≡ full)
      × (are_covered d m.files ≡ true)
      × (derive_id input.created_at full ≡ some m.id)
unfolding build_full_manifest
build_full_manifest_lem vs d input m h = elim (Result-cases (full_files vs d [])) [
  | inr (f, e) ↦ absurd (ground arith)
  | inl (fs, e) ↦ elim (Option-cases (derive_id input.created_at full)) [
    | inl n ↦ absurd (ground arith)
    | inr (id, n) ↦ ground (arith, full_files-are_covered vs d [] fs refl e)
  ]
]
