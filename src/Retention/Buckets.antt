-- ===== src/Retention/Buckets.antt =====
-- The daily and the monthly tier keep the newest snapshot of each bucket.
use obsidian_archivist.Retention.Dates.{monthly_cutoff_key, local_month_key, local_date_key, Dates}
use obsidian_archivist.Retention.Floor.{has-evaluate_tiers, has-ids_of, All}
use obsidian_archivist.Retention.Tiers.{
  ms_per_day, is_within, evaluate_tiers, RetentionSettings, apply_daily, apply_monthly,
  newest_per_bucket, replaces, Snapshots, Buckets, newest,
}
use obsidian_archivist.Common.Text.{
  less_asymm, same, not-less_trans, less_irrefl, less, Text-discrete, Text,
}
use obsidian_archivist.Model.Manifest.{SnapshotIndexEntry}
use obsidian_archivist.Common.{
  ◌⊎◌, ◌*◌, not, filter, ◌≢◌, ℕ, ◌∙◌, eqb_iff, has, map, true, List, any, inr, ◌&&◌, inl,
  Bool-cases, Option-cases, false, put, ◌≡◌, get-put, if◌then◌else◌, arith, get, some, [], ◌∷◌,
}

-- A snapshot is one of a list.
abbrev pub IsAmong : SnapshotIndexEntry → Snapshots → Type 0
IsAmong t [] = ⊥
IsAmong t (s ∷ ss) = (s ≡ t) ⊎ IsAmong t ss

module _ (key : SnapshotIndexEntry → Text) where
  -- Each entry stands under its own key.
  Keyed : Buckets → Type 0
  Keyed m = (k : Text) (t : SnapshotIndexEntry) → get Text-discrete m k ≡ some t → key t ≡ k

  -- One turn of the loop.
  place : SnapshotIndexEntry → Buckets → Buckets
  place s m = if replaces s (get Text-discrete m (key s)) then put Text-discrete m (key s) s else m

  place-Keyed : (s : SnapshotIndexEntry) (m : Buckets) → Keyed m → Keyed (place s m)
  unfolding Keyed place
  place-Keyed s m h k t e = ground (arith, h k t, get-put Text-discrete m (key s) k s)

  -- A turn leaves under each key an entry that is not older, and under the key of its snapshot one
  -- that is not older than that.
  place-newer :
      (s u : SnapshotIndexEntry) (m : Buckets) (k : Text)
      → get Text-discrete m k ≡ some u
      → (t : SnapshotIndexEntry) × (get Text-discrete (place s m) k ≡ some t)
        × (less t.created_at u.created_at ≡ false)
  unfolding place
  place-newer s u m k e =
      elim (Bool-cases (replaces s (get Text-discrete m (key s)) && same (key s) k)) [
        | inl c ↦ (
          s,
          ground (arith, get-put Text-discrete m (key s) k s),
          ground (arith, less_asymm u.created_at s.created_at),
        )
        | inr c ↦ (u, ground (arith, get-put Text-discrete m (key s) k s), less_irrefl u.created_at)
      ]

  place_self :
      (s : SnapshotIndexEntry) (m : Buckets)
      → (t : SnapshotIndexEntry) × (get Text-discrete (place s m) (key s) ≡ some t)
        × (less t.created_at s.created_at ≡ false)
  unfolding place
  place_self s m = elim (Option-cases (get Text-discrete m (key s))) [
    | inl e ↦
        (s, ground (arith, get-put Text-discrete m (key s) (key s) s), less_irrefl s.created_at)
    | inr (u, e) ↦ elim (Bool-cases (less u.created_at s.created_at)) [
      | inl c ↦
          (s, ground (arith, get-put Text-discrete m (key s) (key s) s), less_irrefl s.created_at)
      | inr c ↦ (u, ground arith, c)
    ]
  ]

  newest-newer :
      (ss : Snapshots) (u : SnapshotIndexEntry) (m : Buckets) (k : Text)
      → get Text-discrete m k ≡ some u
      → (t : SnapshotIndexEntry) × (get Text-discrete (newest key ss m) k ≡ some t)
        × (less t.created_at u.created_at ≡ false)
  unfolding newest place
  newest-newer [] u m k e = (u, e, less_irrefl u.created_at)
  newest-newer (s ∷ ss) u m k e =
      let (v, f, n) = place-newer s u m k e in
      let (t, g, o) = newest-newer ss v (place s m) k f in
      (t, g, not-less_trans t.created_at v.created_at u.created_at o n)

  -- What the loop leaves under a key was there, or is of the list.
  newest-IsAmong :
      (ss : Snapshots) (m : Buckets) (k : Text) (t : SnapshotIndexEntry)
      → get Text-discrete (newest key ss m) k ≡ some t
      → (get Text-discrete m k ≡ some t) ⊎ IsAmong t ss
  unfolding newest place
  newest-IsAmong [] m k t e = inl e
  newest-IsAmong (s ∷ ss) m k t e = elim (newest-IsAmong ss (place s m) k t e) [
    | inr h ↦ inr (inr h)
    | inl g ↦ elim (Bool-cases (replaces s (get Text-discrete m (key s)) && same (key s) k)) [
      | inl c ↦ inr (inl (ground (arith, get-put Text-discrete m (key s) k s)))
      | inr c ↦ inl (ground (arith, get-put Text-discrete m (key s) k s))
    ]
  ]

  newest-Keyed : (ss : Snapshots) (m : Buckets) → Keyed m → Keyed (newest key ss m)
  unfolding newest place
  newest-Keyed [] m h = h
  newest-Keyed (s ∷ ss) m h = newest-Keyed ss (place s m) (place-Keyed s m h)

  newest-covers :
      (ss : Snapshots) (m : Buckets)
      → All
          (λ s.
            (t : SnapshotIndexEntry) × (get Text-discrete (newest key ss m) (key s) ≡ some t)
            × (less t.created_at s.created_at ≡ false))
          ss
  unfolding newest place
  newest-covers [] m = tt
  newest-covers (s ∷ ss) m =
      let (v, f, n) = place_self s m in
      let (t, g, o) = newest-newer ss v (place s m) (key s) f in
      (
        (t, g, not-less_trans t.created_at v.created_at s.created_at o n),
        newest-covers ss (place s m),
      )

same_self : (a : Text) → same a a ≡ true
same_self a = ground (arith, eqb_iff Text-discrete a a)

any-get :
    (m : Buckets) (k : Text) (t : SnapshotIndexEntry)
    → get Text-discrete m k ≡ some t
    → any (λ s. same s.id t.id) (map (λ e. e.1) m) ≡ true
any-get [] k t e = absurd (ground arith)
any-get ((j, v) ∷ m) k t e = ground (arith, any-get m k t, same_self t.id)

-- A set of ids keeps the bucket of a snapshot: it holds the id of a snapshot of the list that has the
-- same key and is not older.
abbrev pub CoveredBy :
    (SnapshotIndexEntry → Text) → Snapshots → List Text → SnapshotIndexEntry → Type 0
CoveredBy key ss ids s =
    (t : SnapshotIndexEntry) × IsAmong t ss
    × (key t ≡ key s)
    × (less t.created_at s.created_at ≡ false)
    × (has Text-discrete ids t.id ≡ true)

All-map :
    (P Q : SnapshotIndexEntry → Type 0) (ss : Snapshots)
    → ((s : SnapshotIndexEntry) → P s → Q s)
    → All P ss
    → All Q ss
All-map P Q [] f h = tt
All-map P Q (s ∷ ss) f h = (f s h.0, All-map P Q ss f h.1)

newest_per_bucket_covers :
    (key : SnapshotIndexEntry → Text) (ss : Snapshots)
    → All (CoveredBy key ss (newest_per_bucket ss key)) ss
unfolding newest_per_bucket Keyed
newest_per_bucket_covers key ss =
    All-map _ (CoveredBy key ss (newest_per_bucket ss key)) ss
      (λ s (t, e, n). (
        t,
        elim (newest-IsAmong key ss [] (key s) t e) [ inl g ↦ absurd (ground arith) | inr h ↦ h ],
        newest-Keyed key ss [] (λ k u g. absurd (ground arith)) (key s) t e,
        n,
        has-ids_of (map (λ b. b.1) (newest key ss [])) t.id
            ∙ any-get (newest key ss []) (key s) t e,
      ))
      (newest-covers key ss [])

-- With a daily tier of some days, for every snapshot of its window the tiers keep a snapshot of
-- the window that is of the same local day and not older.
pub daily_covers :
    (dates : Dates) (ss : Snapshots) (settings : RetentionSettings) (now : ℕ)
    → settings.daily_days ≢ 0
    → let window = filter (is_within dates now (settings.daily_days * ms_per_day)) ss in
      All
        (CoveredBy
          (λ s. local_date_key dates s.created_at)
          window
          (evaluate_tiers dates ss settings now))
        window
unfolding apply_daily
daily_covers dates ss settings now pos =
    let key = (λ (s : SnapshotIndexEntry). local_date_key dates s.created_at) in
    let window = filter (is_within dates now (settings.daily_days * ms_per_day)) ss in
    All-map (CoveredBy key window (newest_per_bucket window key)) _ window
      (λ s (t, i, e, n, h).
        (t, i, e, n, ground (arith, has-evaluate_tiers dates ss settings now t.id)))
      (newest_per_bucket_covers key window)

-- With a monthly tier of some years, for every snapshot whose local month is not before the cutoff
-- month the tiers keep such a snapshot of the same local month that is not older.
pub monthly_covers :
    (dates : Dates) (ss : Snapshots) (settings : RetentionSettings) (now : ℕ)
    → settings.monthly_years ≢ 0
    → let window =
        filter
          (λ s. not (
            less
              (local_month_key dates s.created_at)
              (monthly_cutoff_key (dates.local_fields now) (settings.monthly_years * 12))))
          ss in
      All
        (CoveredBy
          (λ s. local_month_key dates s.created_at)
          window
          (evaluate_tiers dates ss settings now))
        window
unfolding apply_monthly
monthly_covers dates ss settings now pos =
    let key = (λ (s : SnapshotIndexEntry). local_month_key dates s.created_at) in
    let cutoff = monthly_cutoff_key (dates.local_fields now) (settings.monthly_years * 12) in
    let window = filter (λ s. not (less (key s) cutoff)) ss in
    All-map (CoveredBy key window (newest_per_bucket window key)) _ window
      (λ s (t, i, e, n, h).
        (t, i, e, n, ground (arith, has-evaluate_tiers dates ss settings now t.id)))
      (newest_per_bucket_covers key window)
