-- ===== src/Devices/Conflicts.antt =====
-- When a device may commit, and what the ownership calls keep.
use obsidian_archivist.Common.{inl, inr, ◌⊎◌, ◌||◌, Bool-cases}
use obsidian_archivist.Model.Failure.{path_not_found}
use obsidian_archivist.Devices.Uuid.{generate_uuid_v4}
use obsidian_archivist.Restore.Chain.{live}
use obsidian_archivist.Model.Failure.{device_conflict, err, ok}
use obsidian_archivist.Common.Text.{same, Text}
use obsidian_archivist.Startup.Report.{not_a_head, no_head, head, Head, HeadFile}
use obsidian_archivist.Devices.Coordinator.{
  window_ms, is_old, validate_head_schema, ConflictOptions, Coordinator, verify_no_conflict,
  get_or_create_device_id, DeviceCalls,
}
use obsidian_archivist.Common.{refl, false, ◌↔◌, true, arith, ◌≡◌, none, some}

-- The id that the device has once it has asked for it: the latched one, the stored one, or a new one.
abbrev pub own_id : DeviceCalls → Coordinator → Text
own_id calls d = elim d.id_promise [
  | some id ↦ id
  | none ↦ elim (live d.stored.device_id) [ some id ↦ id | none ↦ generate_uuid_v4 calls.random ]
]

get_or_create_device_id_lem :
    (calls : DeviceCalls) (d : Coordinator)
    → calls.load_fails ≡ none
    → calls.save_fails ≡ none
    → (get_or_create_device_id calls d).1 ≡ ok (own_id calls d)
unfolding get_or_create_device_id
get_or_create_device_id_lem calls d l s = ground arith

-- A device that asked for its id once has it for good: any later call, whatever its random bytes and
-- its outcomes, gives the same id and changes nothing.
pub get_or_create_device_id_again :
    (calls later : DeviceCalls) (d : Coordinator) (id : Text)
    → (get_or_create_device_id calls d).1 ≡ ok id
    → get_or_create_device_id later (get_or_create_device_id calls d).0
      ≡ ((get_or_create_device_id calls d).0, ok id)
unfolding get_or_create_device_id
get_or_create_device_id_again calls later d id h = ground arith

-- The HEAD names another device, passes the schema, and was not committed before the window.
abbrev pub Blocks : DeviceCalls → ConflictOptions → Text → Head → Type 0
Blocks calls opts mine h =
    (validate_head_schema calls opts h ≡ true)
    × (same h.device_id mine ≡ false)
    × (is_old (calls.time_of h.committed_at) (window_ms opts) calls.now ≡ false)

check_head-Blocks :
    (calls : DeviceCalls) (opts : ConflictOptions) (h : Head) (d : Coordinator)
    → calls.load_fails ≡ none
    → calls.save_fails ≡ none
    → ((verify_no_conflict calls opts none (head h) d).1 ≡ err device_conflict)
      ↔ Blocks calls opts (own_id calls d) h
unfolding verify_no_conflict
check_head-Blocks calls opts h d l s = ground (arith, get_or_create_device_id_lem calls d l s)

head_injective : (h k : Head) → head h ≡ head k → h ≡ k
head_injective h k e = cc

verify_no_conflict-Blocks :
    (calls : DeviceCalls) (opts : ConflictOptions) (file : HeadFile) (d : Coordinator)
    → calls.load_fails ≡ none
    → calls.save_fails ≡ none
    → ((verify_no_conflict calls opts none file d).1 ≡ err device_conflict)
      ↔ ((h : Head) × (file ≡ head h) × Blocks calls opts (own_id calls d) h)
unfolding verify_no_conflict
verify_no_conflict-Blocks calls opts no_head d l s = (
  λ e. absurd (ground arith),
  λ (b : (h : Head) × (no_head ≡ head h) × Blocks calls opts (own_id calls d) h).
      absurd (ground arith),
)
verify_no_conflict-Blocks calls opts not_a_head d l s = (
  λ e. absurd (ground arith),
  λ (b : (h : Head) × (not_a_head ≡ head h) × Blocks calls opts (own_id calls d) h).
      absurd (ground arith),
)
verify_no_conflict-Blocks calls opts (head h) d l s = (
  λ e. (h, refl, (check_head-Blocks calls opts h d l s).0 e),
  λ (b : (k : Head) × (head h ≡ head k) × Blocks calls opts (own_id calls d) k).
      (check_head-Blocks calls opts h d l s).1 (rw (head_injective h b.0 b.1) b.2),
)

verify_no_conflict_answers :
    (calls : DeviceCalls) (opts : ConflictOptions) (file : HeadFile) (d : Coordinator)
    → calls.load_fails ≡ none
    → calls.save_fails ≡ none
    → let result = (verify_no_conflict calls opts none file d).1 in
      (result ≡ ok tt) ⊎ (result ≡ err device_conflict)
unfolding verify_no_conflict
verify_no_conflict_answers calls opts no_head d l s = inl refl
verify_no_conflict_answers calls opts not_a_head d l s = inl refl
verify_no_conflict_answers calls opts (head h) d l s =
    let id = get_or_create_device_id_lem calls d l s in
    let old = is_old (calls.time_of h.committed_at) (window_ms opts) calls.now in
    elim (Bool-cases (validate_head_schema calls opts h)) [
      | inr v ↦ inl (ground arith)
      | inl v ↦ elim (Bool-cases (same h.device_id (own_id calls d) || old)) [
        | inl c ↦ inl (ground (arith, id))
        | inr c ↦ inr (ground (arith, id))
      ]
    ]

-- When a device may commit. With a device store that works: if HEAD downloads, the check fails
-- exactly where the file holds a HEAD that passes the schema, of another device, committed within
-- the window, and then as a conflict; in every other case, a file that is no HEAD included, it
-- passes. It passes too if there is no HEAD file.
pub verify_no_conflict_iff :
    (calls : DeviceCalls) (opts : ConflictOptions) (file : HeadFile) (d : Coordinator)
    → calls.load_fails ≡ none
    → calls.save_fails ≡ none
    → let result = (verify_no_conflict calls opts none file d).1 in
      ((result ≡ err device_conflict)
        ↔ ((h : Head) × (file ≡ head h) × Blocks calls opts (own_id calls d) h))
      × ((result ≡ ok tt) ⊎ (result ≡ err device_conflict))
      × ((verify_no_conflict calls opts (some path_not_found) file d).1 ≡ ok tt)
unfolding verify_no_conflict
verify_no_conflict_iff calls opts file d l s = (
  verify_no_conflict-Blocks calls opts file d l s,
  verify_no_conflict_answers calls opts file d l s,
  refl,
)
