-- ===== src/Restore/Cached.antt =====
-- The cache of manifests: its bound, and that it answers as the downloads do.
use obsidian_archivist.Restore.Walk.{Result-cases}
use obsidian_archivist.Common.{◌∙◌, ◌⊎◌}
use obsidian_archivist.Restore.Walk.{Result-cases}
use obsidian_archivist.Restore.Cache.{
  invalidate, Cache, CacheDeps, load_manifest, ensure_index_loaded, fetch_manifest, evict,
}
use obsidian_archivist.Model.Failure.{ok}
use obsidian_archivist.Model.Manifest.{SnapshotIndex, SnapshotManifest}
use obsidian_archivist.Common.Text.{Text, Text-discrete}
use obsidian_archivist.Common.{
  Option-cases, none, sym, eqb, length-put-le, arith, inl, inr, get, put, erase, length, ltb,
  Bool-cases, ◌≡◌, ◌≤◌, ◌+◌, some, List, [], ◌∷◌,
}

-- Each cached manifest is the one that its id downloads as.
abbrev pub Coherent : CacheDeps → List (Text × SnapshotManifest) → Type 0
Coherent deps [] = Unit {0}
Coherent deps ((id, m) ∷ ms) = (fetch_manifest deps id ≡ ok m) × Coherent deps ms

Coherent-get :
    (deps : CacheDeps) (ms : List (Text × SnapshotManifest)) (id : Text) (m : SnapshotManifest)
    → Coherent deps ms
    → get Text-discrete ms id ≡ some m
    → fetch_manifest deps id ≡ ok m
Coherent-get deps [] id m h g = absurd (ground arith)
Coherent-get deps ((i, n) ∷ ms) id m (h, k) g = ground (arith, Coherent-get deps ms id m k)

Coherent-erase :
    (deps : CacheDeps) (ms : List (Text × SnapshotManifest)) (id : Text)
    → Coherent deps ms
    → Coherent deps (erase Text-discrete ms id)
Coherent-erase deps [] id h = tt
Coherent-erase deps ((i, n) ∷ ms) id (h, k) =
    let rest = Coherent-erase deps ms id k in
    elim (Bool-cases (eqb Text-discrete i id)) [ inl e ↦ rw e rest | inr e ↦ rw e (h, rest) ]

Coherent-put :
    (deps : CacheDeps) (ms : List (Text × SnapshotManifest)) (id : Text) (m : SnapshotManifest)
    → Coherent deps ms
    → fetch_manifest deps id ≡ ok m
    → Coherent deps (put Text-discrete ms id m)
Coherent-put deps [] id m h f = (f, tt)
Coherent-put deps ((i, n) ∷ ms) id m (h, k) f =
    let rest = Coherent-put deps ms id m k f in
    elim (Bool-cases (eqb Text-discrete i id)) [
      | inl e ↦ rw e (ground arith, k)
      | inr e ↦ rw e (h, rest)
    ]

Coherent-evict :
    (deps : CacheDeps) (ms : List (Text × SnapshotManifest))
    → Coherent deps ms
    → Coherent deps (evict ms)
unfolding evict
Coherent-evict deps [] h = tt
Coherent-evict deps (x ∷ ms) (h, k) = elim (Bool-cases (ltb 50 (length (x ∷ ms)))) [
  | inl e ↦ rw e k
  | inr e ↦ rw e (h, k)
]

length-evict : (ms : List (Text × SnapshotManifest)) → length ms ≤ 51 → length (evict ms) ≤ 50
unfolding evict
length-evict [] h = omega arith
length-evict (x ∷ ms) h = ground arith

length-erase :
    (ms : List (Text × SnapshotManifest)) (id : Text)
    → length (erase Text-discrete ms id) ≤ length ms
length-erase [] id = omega arith
length-erase (x ∷ ms) id = ground (arith, length-erase ms id)

length-erase_present :
    (ms : List (Text × SnapshotManifest)) (id : Text) (m : SnapshotManifest)
    → get Text-discrete ms id ≡ some m
    → length (erase Text-discrete ms id) + 1 ≤ length ms
length-erase_present [] id m g = absurd (ground arith)
length-erase_present (x ∷ ms) id m g =
    ground (arith, length-erase_present ms id m, length-erase ms id)

-- At most fifty manifests, each as it downloads.
abbrev pub IsCache : CacheDeps → Cache → Type 0
IsCache deps c = (length c.manifest_by_id ≤ 50) × Coherent deps c.manifest_by_id

ensure_index_loaded-keeps :
    (deps : CacheDeps) (c : Cache)
    → (ensure_index_loaded deps c).0.manifest_by_id ≡ c.manifest_by_id
unfolding ensure_index_loaded
ensure_index_loaded-keeps deps c = ground arith

load_present :
    (deps : CacheDeps) (id : Text) (c : Cache) (m : SnapshotManifest)
    → get Text-discrete c.manifest_by_id id ≡ some m
    → ((load_manifest deps id c).0.manifest_by_id
        ≡ put Text-discrete (erase Text-discrete c.manifest_by_id id) id m)
      × ((load_manifest deps id c).1 ≡ ok m)
unfolding load_manifest
load_present deps id c m g = (ground arith, ground arith)

load_present-IsCache :
    (deps : CacheDeps) (id : Text) (c : Cache) (m : SnapshotManifest)
    → IsCache deps c
    → get Text-discrete c.manifest_by_id id ≡ some m
    → IsCache deps (load_manifest deps id c).0
      × ((load_manifest deps id c).1 ≡ fetch_manifest deps id)
load_present-IsCache deps id c m (bound, h) g =
    let f = Coherent-get deps c.manifest_by_id id m h g in
    let left = erase Text-discrete c.manifest_by_id id in
    let short = length-erase_present c.manifest_by_id id m g in
    let longer = length-put-le Text-discrete left id m in
    let (touched, result) = load_present deps id c m g in
    (
      rw touched
          (omega arith, Coherent-put deps left id m (Coherent-erase deps c.manifest_by_id id h) f),
      result ∙ sym f,
    )

ensure_index_loaded_ok :
    (deps : CacheDeps) (c : Cache) (i : SnapshotIndex)
    → deps.download_index ≡ ok i
    → (j : SnapshotIndex) × ((ensure_index_loaded deps c).1 ≡ ok j)
unfolding ensure_index_loaded
ensure_index_loaded_ok deps c i d = elim (Option-cases c.index_cache) [
  | inl e ↦ (i, ground arith)
  | inr (j, e) ↦ (j, ground arith)
]

load_absent_cases :
    (deps : CacheDeps) (id : Text) (c : Cache)
    → get Text-discrete c.manifest_by_id id ≡ none
    → ((load_manifest deps id c).0.manifest_by_id ≡ c.manifest_by_id)
      ⊎ ((m : SnapshotManifest) × (fetch_manifest deps id ≡ ok m)
          × ((load_manifest deps id c).0.manifest_by_id
              ≡ evict (put Text-discrete c.manifest_by_id id m)))
unfolding load_manifest
load_absent_cases deps id c g =
    let kept = ensure_index_loaded-keeps deps c in
    elim (Result-cases (ensure_index_loaded deps c).1) [
      | inr (k, e) ↦ inl (ground arith)
      | inl (j, e) ↦ elim (Result-cases (fetch_manifest deps id)) [
        | inr (k, f) ↦ inl (ground arith)
        | inl (m, f) ↦ inr (m, f, ground arith)
      ]
    ]

load_absent-IsCache :
    (deps : CacheDeps) (id : Text) (c : Cache)
    → IsCache deps c
    → get Text-discrete c.manifest_by_id id ≡ none
    → IsCache deps (load_manifest deps id c).0
load_absent-IsCache deps id c (bound, h) g = elim (load_absent_cases deps id c g) [
  | inl kept ↦ rw kept (bound, h)
  | inr (m, f, added) ↦
      let more = put Text-discrete c.manifest_by_id id m in
      let longer = length-put-le Text-discrete c.manifest_by_id id m in
      rw added (
        length-evict more (omega arith),
        Coherent-evict deps more (Coherent-put deps c.manifest_by_id id m h f),
      )
]

load_absent-agrees :
    (deps : CacheDeps) (id : Text) (c : Cache) (i : SnapshotIndex)
    → deps.download_index ≡ ok i
    → get Text-discrete c.manifest_by_id id ≡ none
    → (load_manifest deps id c).1 ≡ fetch_manifest deps id
unfolding load_manifest
load_absent-agrees deps id c i d g =
    let (j, e) = ensure_index_loaded_ok deps c i d in
    elim (Result-cases (fetch_manifest deps id)) [
      | inl (m, f) ↦ ground arith
      | inr (k, f) ↦ ground arith
    ]

load_manifest-IsCache :
    (deps : CacheDeps) (id : Text) (c : Cache)
    → IsCache deps c
    → IsCache deps (load_manifest deps id c).0
load_manifest-IsCache deps id c h = elim (Option-cases (get Text-discrete c.manifest_by_id id)) [
  | inl g ↦ load_absent-IsCache deps id c h g
  | inr (m, g) ↦ (load_present-IsCache deps id c m h g).0
]

-- The calls that change the cache.
pub data CacheCall : Type 0 where
  load_call : Text → CacheCall
  index_call invalidate_call : CacheCall

abbrev pub cache_call : CacheDeps → CacheCall → Cache → Cache
cache_call deps (load_call id) c = (load_manifest deps id c).0
cache_call deps index_call c = (ensure_index_loaded deps c).0
cache_call deps invalidate_call c = invalidate c

abbrev pub cache_calls : CacheDeps → List CacheCall → Cache → Cache
cache_calls deps [] c = c
cache_calls deps (x ∷ xs) c = cache_calls deps xs (cache_call deps x c)

cache_calls-IsCache :
    (deps : CacheDeps) (xs : List CacheCall) (c : Cache)
    → IsCache deps c
    → IsCache deps (cache_calls deps xs c)
cache_calls-IsCache deps [] c h = h
cache_calls-IsCache deps (load_call id ∷ xs) c h =
    cache_calls-IsCache deps xs (load_manifest deps id c).0 (load_manifest-IsCache deps id c h)
cache_calls-IsCache deps (index_call ∷ xs) c h =
    cache_calls-IsCache deps xs (ensure_index_loaded deps c).0
      (rw (ensure_index_loaded-keeps deps c) h)
cache_calls-IsCache deps (invalidate_call ∷ xs) c h =
    cache_calls-IsCache deps xs (invalidate c) (omega arith, tt)

-- The cache is transparent and bounded: after any calls on an empty cache, while the downloads answer
-- the same, it holds at most fifty manifests, and a load of a manifest gives what the download of the
-- manifest gives, failures included, if the index can be downloaded.
pub load_manifest-eq-fetch_manifest :
    (deps : CacheDeps) (calls : List CacheCall) (id : Text) (i : SnapshotIndex)
    → deps.download_index ≡ ok i
    → let c = cache_calls deps calls (record { index_cache = none; manifest_by_id = [] }) in
      (length c.manifest_by_id ≤ 50) × ((load_manifest deps id c).1 ≡ fetch_manifest deps id)
load_manifest-eq-fetch_manifest deps calls id i d =
    let start : Cache = record { index_cache = none; manifest_by_id = [] } in
    let c = cache_calls deps calls start in
    let h = cache_calls-IsCache deps calls start (omega arith, tt) in
    elim (Option-cases (get Text-discrete c.manifest_by_id id)) [
      | inl g ↦ (h.0, load_absent-agrees deps id c i d g)
      | inr (m, g) ↦ (h.0, (load_present-IsCache deps id c m h g).1)
    ]
