-- ===== src/Devices/Coordinator.antt =====
-- src/services/DeviceCoordinator.ts: the id of the device, the flag of ownership, and the check that
-- no other device committed recently. What `new Date(text)` gives, none for no date, is a parameter.
use obsidian_archivist.Paths.Stamps.{is_snapshot_id}
use obsidian_archivist.Devices.Uuid.{is_uuid_v4, generate_uuid_v4, Bytes}
use obsidian_archivist.Restore.Chain.{live}
use obsidian_archivist.Model.Failure.{
  device_conflict, path_not_found, ◌>>=◌, err, ok, Result, Failure,
}
use obsidian_archivist.Common.Text.{same, Text}
use obsidian_archivist.Startup.Report.{not_a_head, no_head, head, Head, HeadFile}
use obsidian_archivist.Common.{
  ◌+◌, ◌||◌, leb, ltb, ◌&&◌, if◌then◌else◌, true, ◌*◌, false, ℕ, Bool, Option, none, some,
}

-- `DeviceBlock` of src/infra/PluginStore.ts.
pub record DeviceBlock : Type 0 where
  pub device_id : Option Text
  pub designated : Bool
  pub device_label : Text

-- The latch, and what the plugin's store holds.
pub record Coordinator : Type 0 where
  pub id_promise : Option Text
  pub stored : DeviceBlock

-- How a load and a save fail, if they do, the random bytes, and the time.
pub record DeviceCalls : Type 0 where
  pub load_fails : Option Failure
  pub save_fails : Option Failure
  pub random : Bytes
  pub now : ℕ
  pub time_of : Text → Option ℕ

abbrev pub load_device : DeviceCalls → Coordinator → Result DeviceBlock
load_device calls d = elim calls.load_fails [ some f ↦ err f | none ↦ ok d.stored ]

abbrev pub save_device : DeviceCalls → DeviceBlock → Coordinator → Coordinator × Result (Unit {0})
save_device calls block d = elim calls.save_fails [
  | some f ↦ (d, err f)
  | none ↦ (record d { stored = block }, ok tt)
]

-- The latch keeps the id where the promise resolves, and is cleared where it fails.
abbrev pub latch : Text → Coordinator × Result (Unit {0}) → Coordinator × Result Text
latch id (d, err f) = (d, err f)
latch id (d, ok u) = (record d { id_promise = some id }, ok id)

-- The body of the promise. The empty text counts as no id.
create_device_id : DeviceCalls → DeviceBlock → Coordinator → Coordinator × Result Text
create_device_id calls block d = elim (live block.device_id) [
  | some id ↦ (record d { id_promise = some id }, ok id)
  | none ↦
      let id = generate_uuid_v4 calls.random in
      latch id (save_device calls (record block { device_id = some id }) d)
]

unfoldable pub get_or_create_device_id : DeviceCalls → Coordinator → Coordinator × Result Text
unfolding create_device_id
get_or_create_device_id calls d = elim d.id_promise [
  | some id ↦ (d, ok id)
  | none ↦ elim (load_device calls d) [
    | err f ↦ (d, err f)
    | ok block ↦ create_device_id calls block d
  ]
]

unfoldable pub is_active_owner : DeviceCalls → Coordinator → Result Bool
is_active_owner calls d = load_device calls d >>= λ block. ok block.designated

abbrev pub or_label : Option Text → Text → Text
or_label none old = old
or_label (some label) old = label

unfoldable pub take_ownership :
    DeviceCalls → Option Text → Coordinator → Coordinator × Result (Unit {0})
take_ownership calls label d = elim (load_device calls d) [
  | err f ↦ (d, err f)
  | ok block ↦
      save_device calls
        (record block { designated = true; device_label = or_label label block.device_label }) d
]

unfoldable pub release_ownership : DeviceCalls → Coordinator → Coordinator × Result (Unit {0})
release_ownership calls d = elim (load_device calls d) [
  | err f ↦ (d, err f)
  | ok block ↦ save_device calls (record block { designated = false }) d
]

-- `VerifyNoConflictOptions`.
pub record ConflictOptions : Type 0 where
  pub max_clock_skew_minutes : Option ℕ
  pub recent_window_hours : Option ℕ

abbrev pub no_options : ConflictOptions
no_options = record { max_clock_skew_minutes = none; recent_window_hours = none }

abbrev pub or_default : ℕ → Option ℕ → ℕ
or_default n none = n
or_default n (some m) = m

abbrev pub skew_ms : ConflictOptions → ℕ
skew_ms opts = or_default 5 opts.max_clock_skew_minutes * 60 * 1000

abbrev pub window_ms : ConflictOptions → ℕ
window_ms opts = or_default 2 opts.recent_window_hours * 1000 * 60 * 60

abbrev pub not_in_future : Option ℕ → ℕ → Bool
not_in_future none limit = false
not_in_future (some ts) limit = leb ts limit

-- `validateHeadSchema` on a HEAD whose fields have their types.
unfoldable pub validate_head_schema : DeviceCalls → ConflictOptions → Head → Bool
validate_head_schema calls opts h =
    is_snapshot_id h.snapshot_id
    && is_uuid_v4 h.device_id
    && not_in_future (calls.time_of h.committed_at) (calls.now + skew_ms opts)

-- `ageHours > recentWindowHours`.
abbrev pub is_old : Option ℕ → ℕ → ℕ → Bool
is_old none window now = false
is_old (some ts) window now = ltb (ts + window) now

against :
    DeviceCalls
    → ConflictOptions
    → Head
    → Coordinator × Result Text
    → Coordinator × Result (Unit {0})
against calls opts h (d, err f) = (d, err f)
against calls opts h (d, ok mine) =
    if same h.device_id mine || is_old (calls.time_of h.committed_at) (window_ms opts) calls.now
    then (d, ok tt)
    else (d, err device_conflict)

check_head :
    DeviceCalls → ConflictOptions → HeadFile → Coordinator → Coordinator × Result (Unit {0})
unfolding against
check_head calls opts no_head d = (d, ok tt)
check_head calls opts not_a_head d = (d, ok tt)
check_head calls opts (head h) d =
    if validate_head_schema calls opts h
    then against calls opts h (get_or_create_device_id calls d)
    else (d, ok tt)

abbrev pub is_missing : Failure → Bool
is_missing path_not_found = true
is_missing _ = false

-- `verifyNoConflict`, on the HEAD file and how its download fails, if it does.
unfoldable pub verify_no_conflict :
    DeviceCalls
    → ConflictOptions
    → Option Failure
    → HeadFile
    → Coordinator
    → Coordinator × Result (Unit {0})
unfolding check_head
verify_no_conflict calls opts (some f) file d = if is_missing f then (d, ok tt) else (d, err f)
verify_no_conflict calls opts none file d = check_head calls opts file d
