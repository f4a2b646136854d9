-- ===== src/Retention/Floor.antt =====
-- What the tiers guarantee: the safety floor, the windows and the newest of each bucket.
use obsidian_archivist.Retention.Dates.{Dates}
use obsidian_archivist.Common.Text.{same, Text-discrete, Text, not-less_trans, less_asymm, less}
use obsidian_archivist.Retention.Tiers.{
  apply_monthly, apply_daily, apply_recent_hours, apply_never_prune, ids_of, apply_always_keep_n,
  RetentionSettings, sort_newest, evaluate_tiers, insert_newer, Snapshots,
}
use obsidian_archivist.Model.Manifest.{SnapshotIndexEntry}
use obsidian_archivist.Common.{
  zero, suc, ◌≤◌, min, ◌+◌, take, true, add_all, ◌∙◌, has-add_all, not, map, refl, arith, filter, ℕ,
  length, has, ◌||◌, any, false, inr, ◌≡◌, inl, Bool-cases, Bool, List, [], ◌∷◌,
}

abbrev pub All {ℓ κ} : {A : Type ℓ} → (A → Type κ) → List A → Type κ
All P [] = Unit
All P (x ∷ xs) = P x × All P xs

-- Newest first: no later entry is newer than an earlier one.
abbrev pub NewestFirst : Snapshots → Type 0
NewestFirst [] = Unit {0}
NewestFirst (x ∷ xs) = All (λ y. less x.created_at y.created_at ≡ false) xs × NewestFirst xs

All-insert_newer {κ} :
    (P : SnapshotIndexEntry → Type κ) (x : SnapshotIndexEntry) (ys : Snapshots)
    → P x
    → All P ys
    → All P (insert_newer x ys)
unfolding insert_newer
All-insert_newer P x [] p h = (p, tt)
All-insert_newer P x (y ∷ ys) p h = elim (Bool-cases (less x.created_at y.created_at)) [
  | inl e ↦ rw e (h.0, All-insert_newer P x ys p h.1)
  | inr e ↦ rw e (p, h)
]

older_than :
    (a b : SnapshotIndexEntry) (ys : Snapshots)
    → less a.created_at b.created_at ≡ false
    → All (λ y. less b.created_at y.created_at ≡ false) ys
    → All (λ y. less a.created_at y.created_at ≡ false) ys
older_than a b [] h k = tt
older_than a b (y ∷ ys) h k =
    (not-less_trans a.created_at b.created_at y.created_at h k.0, older_than a b ys h k.1)

insert_newer-NewestFirst :
    (x : SnapshotIndexEntry) (ys : Snapshots) → NewestFirst ys → NewestFirst (insert_newer x ys)
unfolding insert_newer
insert_newer-NewestFirst x [] h = (tt, tt)
insert_newer-NewestFirst x (y ∷ ys) h = elim (Bool-cases (less x.created_at y.created_at)) [
  | inl e ↦ rw e (
    All-insert_newer (λ z. less y.created_at z.created_at ≡ false) x ys
        (less_asymm x.created_at y.created_at e) h.0,
    insert_newer-NewestFirst x ys h.1,
  )
  | inr e ↦ rw e ((e, older_than x y ys e h.0), h)
]

sort_newest-NewestFirst :
    (ss sorted : Snapshots) → NewestFirst sorted → NewestFirst (sort_newest ss sorted)
unfolding sort_newest
sort_newest-NewestFirst [] sorted h = h
sort_newest-NewestFirst (s ∷ ss) sorted h =
    sort_newest-NewestFirst ss (insert_newer s sorted) (insert_newer-NewestFirst s sorted h)

-- The members of a list, by a test.
any-insert_newer :
    (p : SnapshotIndexEntry → Bool) (x : SnapshotIndexEntry) (ys : Snapshots)
    → any p (insert_newer x ys) ≡ (p x || any p ys)
unfolding insert_newer
any-insert_newer p x [] = refl
any-insert_newer p x (y ∷ ys) = ground (arith, any-insert_newer p x ys)

any-sort_newest :
    (p : SnapshotIndexEntry → Bool) (ss sorted : Snapshots)
    → any p (sort_newest ss sorted) ≡ (any p ss || any p sorted)
unfolding sort_newest
any-sort_newest p [] sorted = refl
any-sort_newest p (s ∷ ss) sorted =
    ground (arith, any-sort_newest p ss (insert_newer s sorted), any-insert_newer p s sorted)

has-map :
    (ss : Snapshots) (x : Text)
    → has Text-discrete (map (λ s. s.id) ss) x ≡ any (λ s. same s.id x) ss
has-map [] x = refl
has-map (s ∷ ss) x = ground (arith, has-map ss x)

pub has-ids_of :
    (ss : Snapshots) (x : Text) → has Text-discrete (ids_of ss) x ≡ any (λ s. same s.id x) ss
has-ids_of ss x = has-add_all Text-discrete [] (map (λ s. s.id) ss) x ∙ has-map ss x

-- How many snapshots of a list are not older than an instant.
abbrev pub as_new : Text → Snapshots → ℕ
as_new t ss = length (filter (λ y. not (less y.created_at t)) ss)

as_new_zero :
    (t : Text) (x : SnapshotIndexEntry) (ss : Snapshots)
    → less x.created_at t ≡ true
    → All (λ y. less x.created_at y.created_at ≡ false) ss
    → as_new t ss ≡ 0
as_new_zero t x [] old h = refl
as_new_zero t x (s ∷ ss) old h =
    ground (arith, as_new_zero t x ss old h.1, not-less_trans x.created_at s.created_at t h.0)

as_new-take-le : (t : Text) (n : ℕ) (ss : Snapshots) → as_new t (take n ss) ≤ as_new t ss
as_new-take-le t zero ss = omega arith
as_new-take-le t (suc n) [] = omega arith
as_new-take-le t (suc n) (s ∷ ss) = ground (arith, as_new-take-le t n ss)

as_new-take :
    (t : Text) (n : ℕ) (ss : Snapshots)
    → NewestFirst ss
    → as_new t (take n ss) ≡ min n (as_new t ss)
as_new-take t zero ss h = omega arith
as_new-take t (suc n) [] h = omega arith
as_new-take t (suc n) (s ∷ ss) h =
    ground (arith, as_new-take t n ss h.1, as_new_zero t s ss, as_new-take-le t n ss, h.0)

as_new-insert :
    (t : Text) (x : SnapshotIndexEntry) (ys : Snapshots)
    → as_new t (insert_newer x ys) ≡ as_new t (x ∷ ys)
unfolding insert_newer
as_new-insert t x [] = refl
as_new-insert t x (y ∷ ys) = ground (arith, as_new-insert t x ys)

as_new-sort :
    (t : Text) (ss sorted : Snapshots)
    → as_new t (sort_newest ss sorted) ≡ as_new t ss + as_new t sorted
unfolding sort_newest
as_new-sort t [] sorted = omega arith
as_new-sort t (s ∷ ss) sorted =
    ground (arith, as_new-sort t ss (insert_newer s sorted), as_new-insert t s sorted)

-- The id passes the tiers exactly when one of the five keeps it.
pub has-evaluate_tiers :
    (dates : Dates) (ss : Snapshots) (settings : RetentionSettings) (now : ℕ) (x : Text)
    → has Text-discrete (evaluate_tiers dates ss settings now) x ≡ (
        has Text-discrete (apply_always_keep_n ss settings) x
        || has Text-discrete (apply_never_prune dates ss settings now) x
        || has Text-discrete (apply_recent_hours dates ss settings now) x
        || has Text-discrete (apply_daily dates ss settings now) x
        || has Text-discrete (apply_monthly dates ss settings now) x)
unfolding evaluate_tiers
has-evaluate_tiers dates ss settings now x =
    let a = apply_always_keep_n ss settings in
    let b = apply_never_prune dates ss settings now in
    let c = apply_recent_hours dates ss settings now in
    let d = apply_daily dates ss settings now in
    let e = apply_monthly dates ss settings now in
    let ab = add_all Text-discrete (add_all Text-discrete [] a) b in
    let abc = add_all Text-discrete ab c in
    let abcd = add_all Text-discrete abc d in
    ground (
      arith,
      has-add_all Text-discrete abcd e x,
      has-add_all Text-discrete abc d x,
      has-add_all Text-discrete ab c x,
      has-add_all Text-discrete (add_all Text-discrete [] a) b x,
      has-add_all Text-discrete [] a x,
    )

-- The safety floor: for every instant, of the snapshots that are not older the `always_keep_n` tier
-- holds as many as there are, up to that number, and the tiers keep the id of each that it holds.
pub always_keep_n_floor :
    (dates : Dates) (ss : Snapshots) (settings : RetentionSettings) (now : ℕ) (t : Text)
    → let top = take settings.always_keep_n (sort_newest ss []) in
      (as_new t top ≡ min settings.always_keep_n (as_new t ss))
      × ((x : Text)
          → any (λ s. same s.id x) top ≡ true
          → has Text-discrete (evaluate_tiers dates ss settings now) x ≡ true)
unfolding apply_always_keep_n
always_keep_n_floor dates ss settings now t =
    let sorted = sort_newest ss [] in
    let top = take settings.always_keep_n sorted in
    (
      omega (
        arith,
        as_new-take t settings.always_keep_n sorted (sort_newest-NewestFirst ss [] tt),
        as_new-sort t ss [],
      ),
      (λ x h. ground (arith, has-evaluate_tiers dates ss settings now x, has-ids_of top x)),
    )
