-- ===== src/Backup/Uploads.antt =====
-- src/services/BackupService.ts: `resolveParallelism`, `readAndHashFiles`, `collectNewBlobs`,
-- `uploadBlobs` and `uploadBlob`. What a file holds, the hasher and the outcome of each upload are
-- parameters.
use obsidian_archivist.Paths.Remote.{content_path}
use obsidian_archivist.Model.Failure.{err, ◌>>=◌, ok, Failure, Result}
use obsidian_archivist.Common.Text.{Text-discrete, Text}
use obsidian_archivist.Common.{
  ◌*◌, ◌/◌, has, take, ltb, zero, suc, if◌then◌else◌, add, length, put, ℕ, Option, none, some, List,
  [], ◌∷◌,
}

-- A number of the settings: no finite one, a negative one, or `n / (d + 1)`.
pub data Number : Type 0 where
  not_finite negative : Number
  fraction : ℕ → ℕ → Number

unfoldable pub resolve_parallelism : Option Number → ℕ
resolve_parallelism none = 2
resolve_parallelism (some not_finite) = 2
resolve_parallelism (some negative) = 2
resolve_parallelism (some (fraction n d)) = if ltb n (suc d) then 2 else n / suc d

-- The loop `for (i = 0; i < xs.length; i += size)` over `xs.slice(i, i + size)`, for a bound on the
-- number of its rounds.
abbrev pub drop {ℓ} : {A : Type ℓ} → ℕ → List A → List A
drop zero xs = xs
drop (suc n) [] = []
drop (suc n) (x ∷ xs) = drop n xs

unfoldable pub batches_from {ℓ} : {A : Type ℓ} → ℕ → ℕ → List A → List (List A)
batches_from zero size xs = []
batches_from (suc fuel) size [] = []
batches_from (suc fuel) size (x ∷ xs) =
    take size (x ∷ xs) ∷ batches_from fuel size (drop size (x ∷ xs))

unfoldable pub batches {ℓ} : {A : Type ℓ} → ℕ → List A → List (List A)
unfolding batches_from
batches size xs = batches_from (length xs) size xs

abbrev pub Octets : Type 0
Octets = List ℕ

pub record ReadFile : Type 0 where
  pub hash : Text
  pub bytes : Octets

abbrev pub FileData : Type 0
FileData = List (Text × ReadFile)

-- One batch: its reads end before the map is written.
unfoldable pub read_batch : (Text → Result Octets) → (Octets → Text) → List Text → Result FileData
read_batch read hasher [] = ok []
read_batch read hasher (p ∷ ps) = do
  bytes ← read p
  rest ← read_batch read hasher ps
  ok ((p, record { hash = hasher bytes; bytes = bytes }) ∷ rest)

abbrev pub put_all : FileData → FileData → FileData
put_all data_map [] = data_map
put_all data_map ((p, r) ∷ rs) = put_all (put Text-discrete data_map p r) rs

unfoldable pub read_batches :
    (Text → Result Octets) → (Octets → Text) → List (List Text) → FileData → Result FileData
unfolding read_batch
read_batches read hasher [] data_map = ok data_map
read_batches read hasher (b ∷ bs) data_map = read_batch read hasher b >>= λ (rs : FileData).
    read_batches read hasher bs (put_all data_map rs)

unfoldable pub read_and_hash_files :
    (Text → Result Octets) → (Octets → Text) → ℕ → List Text → Result FileData
unfolding read_batches batches
read_and_hash_files read hasher parallelism paths =
    read_batches read hasher (batches parallelism paths) []

abbrev pub Blobs : Type 0
Blobs = List (Text × Octets)

-- `collectNewBlobs`, with the set of hashes seen.
unfoldable pub collect_new_blobs : FileData → List Text → Blobs
collect_new_blobs [] seen = []
collect_new_blobs ((p, r) ∷ rs) seen =
    let rest = collect_new_blobs rs (add Text-discrete seen r.hash) in
    if has Text-discrete seen r.hash then rest else (r.hash, r.bytes) ∷ rest

abbrev pub chunk_bytes : ℕ → ℕ
chunk_bytes size = if ltb size (50 * 1024 * 1024) then 8 * 1024 * 1024 else 150 * 1024 * 1024

-- How the upload of a blob with a chunk size fails, if it does.
abbrev pub UploadFails : Type 0
UploadFails = Text → ℕ → Option Failure

abbrev failure_of {ℓ} : {A : Type ℓ} → Result A → Option Failure → Option Failure
failure_of (ok a) f = f
failure_of (err e) f = some e

-- How `uploadBlob` fails, if it does: no path for the hash, or the upload.
unfoldable pub blob_failure : Text → UploadFails → Text → Octets → Option Failure
blob_failure prefix fails hash bytes =
    failure_of (content_path prefix hash) (fails hash (chunk_bytes (length bytes)))

-- The uploads of a batch all end; the first failure goes on.
unfoldable pub upload_batch : Text → UploadFails → Blobs → Blobs → Blobs × Result (Unit {0})
upload_batch prefix fails [] store = (store, ok tt)
upload_batch prefix fails ((h, b) ∷ es) store = elim (blob_failure prefix fails h b) [
  | some f ↦ let (after, result) = upload_batch prefix fails es store in (after, err f)
  | none ↦ upload_batch prefix fails es (put Text-discrete store h b)
]

unfoldable pub upload_batches : Text → UploadFails → List Blobs → Blobs → Blobs × Result (Unit {0})
unfolding upload_batch
upload_batches prefix fails [] store = (store, ok tt)
upload_batches prefix fails (b ∷ bs) store =
    let (after, result) = upload_batch prefix fails b store in
    elim result [ err f ↦ (after, err f) | ok u ↦ upload_batches prefix fails bs after ]

unfoldable pub upload_blobs : Text → UploadFails → ℕ → Blobs → Blobs → Blobs × Result (Unit {0})
unfolding upload_batches batches
upload_blobs prefix fails parallelism blobs store =
    upload_batches prefix fails (batches parallelism blobs) store
