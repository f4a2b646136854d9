-- ===== src/Retention/Tiers.antt =====
-- src/services/retention/evaluator.ts: the tiers and their union. Sets of ids are lists.
use obsidian_archivist.Model.Manifest.{SnapshotIndexEntry}
use obsidian_archivist.Common.Text.{Text-discrete, less, Text}
use obsidian_archivist.Retention.Dates.{local_month_key, local_date_key, monthly_cutoff_key, Dates}
use obsidian_archivist.Common.{
  not, ◌*◌, take, filter, ◌+◌, put, leb, get, ◌==◌, add_all, false, map, if◌then◌else◌, true, ℕ,
  Bool, Option, none, some, List, [], ◌∷◌,
}

pub record RetentionSettings : Type 0 where
  pub always_keep_n : ℕ
  pub never_prune_window_days : ℕ
  pub recent_hours : ℕ
  pub daily_days : ℕ
  pub monthly_years : ℕ

abbrev pub ms_per_day : ℕ
ms_per_day = 86400000

abbrev pub ms_per_hour : ℕ
ms_per_hour = 3600000

abbrev pub Snapshots : Type 0
Snapshots = List SnapshotIndexEntry

-- `new Set(xs.map((s) => s.id))`.
abbrev pub ids_of : Snapshots → List Text
ids_of xs = add_all Text-discrete [] (map (λ s. s.id) xs)

abbrev pub Buckets : Type 0
Buckets = List (Text × SnapshotIndexEntry)

-- `!prev || s.created_at > prev.created_at`.
abbrev pub replaces : SnapshotIndexEntry → Option SnapshotIndexEntry → Bool
replaces s none = true
replaces s (some prev) = less prev.created_at s.created_at

unfoldable pub newest : (SnapshotIndexEntry → Text) → Snapshots → Buckets → Buckets
newest key [] m = m
newest key (s ∷ ss) m =
    newest key ss
      (if replaces s (get Text-discrete m (key s)) then put Text-discrete m (key s) s else m)

unfoldable pub newest_per_bucket : Snapshots → (SnapshotIndexEntry → Text) → List Text
unfolding newest
newest_per_bucket ss key = ids_of (map (λ e. e.1) (newest key ss []))

-- `sort((a, b) => (a.created_at < b.created_at ? 1 : -1))`, as an insertion: `x` goes before the
-- first entry that is not newer. The comparator never answers 0, so of two entries of one instant
-- either may come first; here the one that stood later.
unfoldable pub insert_newer : SnapshotIndexEntry → Snapshots → Snapshots
insert_newer x [] = x ∷ []
insert_newer x (y ∷ ys) =
    let rest = insert_newer x ys in if less x.created_at y.created_at then y ∷ rest else x ∷ y ∷ ys

unfoldable pub sort_newest : Snapshots → Snapshots → Snapshots
unfolding insert_newer
sort_newest [] sorted = sorted
sort_newest (x ∷ xs) sorted = sort_newest xs (insert_newer x sorted)

unfoldable pub apply_always_keep_n : Snapshots → RetentionSettings → List Text
unfolding sort_newest
apply_always_keep_n ss settings =
    if settings.always_keep_n == 0
    then []
    else ids_of (take settings.always_keep_n (sort_newest ss []))

-- `new Date(s.created_at).getTime() >= now - window`, false for NaN. The sum replaces a difference
-- that may be negative.
abbrev pub is_within : Dates → ℕ → ℕ → SnapshotIndexEntry → Bool
is_within dates now window s = elim (dates.time_of s.created_at) [
  | none ↦ false
  | some t ↦ leb now (t + window)
]

unfoldable pub apply_never_prune : Dates → Snapshots → RetentionSettings → ℕ → List Text
apply_never_prune dates ss settings now =
    if settings.never_prune_window_days == 0
    then []
    else ids_of (filter (is_within dates now (settings.never_prune_window_days * ms_per_day)) ss)

unfoldable pub apply_recent_hours : Dates → Snapshots → RetentionSettings → ℕ → List Text
apply_recent_hours dates ss settings now =
    if settings.recent_hours == 0
    then []
    else ids_of (filter (is_within dates now (settings.recent_hours * ms_per_hour)) ss)

unfoldable pub apply_daily : Dates → Snapshots → RetentionSettings → ℕ → List Text
unfolding newest_per_bucket
apply_daily dates ss settings now =
    if settings.daily_days == 0
    then []
    else newest_per_bucket (filter (is_within dates now (settings.daily_days * ms_per_day)) ss)
        (λ s. local_date_key dates s.created_at)

unfoldable pub apply_monthly : Dates → Snapshots → RetentionSettings → ℕ → List Text
unfolding newest_per_bucket
apply_monthly dates ss settings now =
    if settings.monthly_years == 0
    then []
    else (let cutoff = monthly_cutoff_key (dates.local_fields now) (settings.monthly_years * 12) in
        newest_per_bucket (filter (λ s. not (less (local_month_key dates s.created_at) cutoff)) ss)
          (λ s. local_month_key dates s.created_at))

unfoldable pub evaluate_tiers : Dates → Snapshots → RetentionSettings → ℕ → List Text
evaluate_tiers dates ss settings now =
    let floor = add_all Text-discrete [] (apply_always_keep_n ss settings) in
    let kept = add_all Text-discrete floor (apply_never_prune dates ss settings now) in
    let recent = add_all Text-discrete kept (apply_recent_hours dates ss settings now) in
    let daily = add_all Text-discrete recent (apply_daily dates ss settings now) in
    add_all Text-discrete daily (apply_monthly dates ss settings now)
