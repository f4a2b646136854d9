-- ===== src/Backup/UploadLaws.antt =====
-- What the uploads of a backup leave in the store of blobs.
use obsidian_archivist.Backup.Batching.{concat-batches, concat}
use obsidian_archivist.Restore.Walk.{Result-cases}
use obsidian_archivist.Model.Failure.{ok}
use obsidian_archivist.Common.Text.{Text-discrete, same, Text}
use obsidian_archivist.Backup.Uploads.{
  ReadFile, FileData, upload_blobs, collect_new_blobs, upload_batches, blob_failure, UploadFails,
  Octets, batches, upload_batch, Blobs,
}
use obsidian_archivist.Common.{
  false, if◌then◌else◌, has-add, ◌⊎◌, has, add, map, ◌&&◌, inr, inl, get-put, Option-cases, ◌||◌,
  refl, true, put, is_some, get, arith, ◌≡◌, all, ◌≤◌, ℕ, ◌++◌, Bool, some, List, [], ◌∷◌,
}

abbrev pub has_blob : Blobs → Text → Bool
has_blob store h = is_some (get Text-discrete store h)

-- Every blob is stored under its own hash.
abbrev pub Hashed : (Octets → Text) → Blobs → Type 0
Hashed hasher store = (h : Text) (b : Octets) → get Text-discrete store h ≡ some b → hasher b ≡ h

abbrev pub are_hashed : (Octets → Text) → Blobs → Bool
are_hashed hasher es = all (λ e. same (hasher e.1) e.0) es

abbrev pub are_stored : Blobs → Blobs → Bool
are_stored store es = all (λ e. has_blob store e.0) es

put-has_blob :
    (store : Blobs) (k h : Text) (b : Octets)
    → has_blob (put Text-discrete store k b) h ≡ (same k h || has_blob store h)
put-has_blob store k h b = ground (arith, get-put Text-discrete store k h b)

upload_batch-has_blob :
    (prefix : Text) (fails : UploadFails) (es store : Blobs) (h : Text)
    → has_blob store h ≡ true
    → has_blob (upload_batch prefix fails es store).0 h ≡ true
unfolding upload_batch
upload_batch-has_blob prefix fails [] store h s = s
upload_batch-has_blob prefix fails ((k, b) ∷ es) store h s = ground (
  arith,
  upload_batch-has_blob prefix fails es store h,
  upload_batch-has_blob prefix fails es (put Text-discrete store k b) h,
  put-has_blob store k h b,
)

upload_batch-are_stored :
    (prefix : Text) (fails : UploadFails) (es store : Blobs)
    → (upload_batch prefix fails es store).1 ≡ ok tt
    → are_stored (upload_batch prefix fails es store).0 es ≡ true
unfolding upload_batch
upload_batch-are_stored prefix fails [] store r = refl
upload_batch-are_stored prefix fails ((k, b) ∷ es) store r = ground (
  arith,
  upload_batch-are_stored prefix fails es (put Text-discrete store k b),
  upload_batch-has_blob prefix fails es (put Text-discrete store k b) k,
  put-has_blob store k k b,
)

put-Hashed :
    (hasher : Octets → Text) (store : Blobs) (k : Text) (b : Octets)
    → same (hasher b) k ≡ true
    → Hashed hasher store
    → Hashed hasher (put Text-discrete store k b)
put-Hashed hasher store k b e hashed h c g =
    ground (arith, get-put Text-discrete store k h b, hashed h c)

upload_batch-eq :
    (prefix : Text) (fails : UploadFails) (k : Text) (b : Octets) (es store : Blobs)
    → (upload_batch prefix fails ((k, b) ∷ es) store).0
      ≡ (upload_batch prefix fails es (
          if is_some (blob_failure prefix fails k b) then store else put Text-discrete store k b)).0
unfolding upload_batch
upload_batch-eq prefix fails k b es store = elim (Option-cases (blob_failure prefix fails k b)) [
  | inl n ↦ ground arith
  | inr (f, n) ↦ ground arith
]

put_unless-Hashed :
    (hasher : Octets → Text) (failed : Bool) (store : Blobs) (k : Text) (b : Octets)
    → same (hasher b) k ≡ true
    → Hashed hasher store
    → Hashed hasher (if failed then store else put Text-discrete store k b)
put_unless-Hashed hasher true store k b e hashed = hashed
put_unless-Hashed hasher false store k b e hashed = put-Hashed hasher store k b e hashed

upload_batch-Hashed :
    (hasher : Octets → Text) (prefix : Text) (fails : UploadFails) (es store : Blobs)
    → are_hashed hasher es ≡ true
    → Hashed hasher store
    → Hashed hasher (upload_batch prefix fails es store).0
unfolding upload_batch
upload_batch-Hashed hasher prefix fails [] store e hashed = hashed
upload_batch-Hashed hasher prefix fails ((k, b) ∷ es) store e hashed =
    rw (upload_batch-eq prefix fails k b es store) (
      upload_batch-Hashed hasher prefix fails es
        (if is_some (blob_failure prefix fails k b) then store else put Text-discrete store k b)
        (ground arith)
        (put_unless-Hashed hasher (is_some (blob_failure prefix fails k b)) store k b (ground arith)
          hashed))

pub all-append {ℓ} :
    {A : Type ℓ} (p : A → Bool) (xs ys : List A) → all p (xs ++ ys) ≡ (all p xs && all p ys)
all-append p [] ys = refl
all-append p (x ∷ xs) ys = ground (arith, all-append p xs ys)

upload_batches-has_blob :
    (prefix : Text) (fails : UploadFails) (bs : List Blobs) (store : Blobs) (h : Text)
    → has_blob store h ≡ true
    → has_blob (upload_batches prefix fails bs store).0 h ≡ true
unfolding upload_batches
upload_batches-has_blob prefix fails [] store h s = s
upload_batches-has_blob prefix fails (b ∷ bs) store h s = ground (
  arith,
  upload_batch-has_blob prefix fails b store h s,
  upload_batches-has_blob prefix fails bs (upload_batch prefix fails b store).0 h,
)

are_stored-upload_batches :
    (prefix : Text) (fails : UploadFails) (es : Blobs) (bs : List Blobs) (store : Blobs)
    → are_stored store es ≡ true
    → are_stored (upload_batches prefix fails bs store).0 es ≡ true
are_stored-upload_batches prefix fails [] bs store s = refl
are_stored-upload_batches prefix fails (e ∷ es) bs store s = ground (
  arith,
  upload_batches-has_blob prefix fails bs store e.0,
  are_stored-upload_batches prefix fails es bs store,
)

upload_batches-are_stored :
    (prefix : Text) (fails : UploadFails) (bs : List Blobs) (store : Blobs)
    → (upload_batches prefix fails bs store).1 ≡ ok tt
    → are_stored (upload_batches prefix fails bs store).0 (concat bs) ≡ true
unfolding upload_batches
upload_batches-are_stored prefix fails [] store r = refl
upload_batches-are_stored prefix fails (b ∷ bs) store r =
    let after = (upload_batch prefix fails b store).0 in
    ground (
      arith,
      all-append (λ (e : Text × Octets). has_blob (upload_batches prefix fails bs after).0 e.0) b
          (concat bs),
      upload_batch-are_stored prefix fails b store,
      are_stored-upload_batches prefix fails b bs after,
      upload_batches-are_stored prefix fails bs after,
    )

upload_batches-Hashed :
    (hasher : Octets → Text) (prefix : Text) (fails : UploadFails) (bs : List Blobs) (store : Blobs)
    → are_hashed hasher (concat bs) ≡ true
    → Hashed hasher store
    → Hashed hasher (upload_batches prefix fails bs store).0
unfolding upload_batches
upload_batches-Hashed hasher prefix fails [] store e hashed = hashed
upload_batches-Hashed hasher prefix fails (b ∷ bs) store e hashed =
    let parts = all-append (λ (e : Text × Octets). same (hasher e.1) e.0) b (concat bs) in
    let one = upload_batch-Hashed hasher prefix fails b store (ground arith) hashed in
    elim (Result-cases (upload_batch prefix fails b store).1) [
      | inl (u, r) ↦
          rw (upload_batches, r)
            (upload_batches-Hashed hasher prefix fails bs (upload_batch prefix fails b store).0
              (ground arith) one)
      | inr (f, r) ↦ rw (upload_batches, r) one
    ]

-- The uploads of a backup, in batches of a positive size: a blob that was stored stays stored; where
-- they all go through, every blob is stored; and if each blob has the name of its hash, in the store
-- and among the new ones, then so it has afterwards, whichever uploads fail.
pub upload_blobs_lem :
    (hasher : Octets → Text) (prefix : Text) (fails : UploadFails) (size : ℕ) (es store : Blobs)
    → 1 ≤ size
    → are_hashed hasher es ≡ true
    → Hashed hasher store
    → let (after, result) = upload_blobs prefix fails size es store in
      ((h : Text) → has_blob store h ≡ true → has_blob after h ≡ true)
      × (result ≡ ok tt → are_stored after es ≡ true)
      × Hashed hasher after
unfolding upload_blobs
upload_blobs_lem hasher prefix fails size es store positive named hashed =
    let cut_up = concat-batches size es positive in
    (
      λ h s. upload_batches-has_blob prefix fails (batches size es) store h s,
      λ r. ground (arith, cut_up, upload_batches-are_stored prefix fails (batches size es) store r),
      upload_batches-Hashed hasher prefix fails (batches size es) store (ground (arith, cut_up))
          hashed,
    )

abbrev pub hashes_of : FileData → List Text
hashes_of d = map (λ (e : Text × ReadFile). e.1.hash) d

-- Each file's hash is that of its bytes.
abbrev pub are_read : (Octets → Text) → FileData → Bool
are_read hasher d = all (λ (e : Text × ReadFile). same (hasher e.1.bytes) e.1.hash) d

pub collect_new_blobs-are_hashed :
    (hasher : Octets → Text) (d : FileData) (seen : List Text)
    → are_read hasher d ≡ true
    → are_hashed hasher (collect_new_blobs d seen) ≡ true
unfolding collect_new_blobs
collect_new_blobs-are_hashed hasher [] seen h = refl
collect_new_blobs-are_hashed hasher (e ∷ d) seen h =
    ground (arith, collect_new_blobs-are_hashed hasher d (add Text-discrete seen e.1.hash))

-- A hash of the files that was not seen before is among the blobs.
pub collect_new_blobs-has :
    (d : FileData) (seen : List Text) (h : Text)
    → has Text-discrete (hashes_of d) h ≡ true
    → (has Text-discrete seen h ≡ true)
      ⊎ (has Text-discrete (map (λ (e : Text × Octets). e.0) (collect_new_blobs d seen)) h ≡ true)
unfolding collect_new_blobs
collect_new_blobs-has [] seen h s = absurd (ground arith)
collect_new_blobs-has (e ∷ d) seen h s = ground (
  arith,
  collect_new_blobs-has d (add Text-discrete seen e.1.hash) h,
  has-add Text-discrete seen e.1.hash h,
)
