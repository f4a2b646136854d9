-- ===== src/Paths/Stamps.antt =====
-- The ids of snapshots: `deriveId` of src/services/ManifestBuilder.ts, the pattern of src/util/
-- paths.ts and `epochMsFromSnapshotId` of src/util/time.ts.
use obsidian_archivist.Restore.Chain.{live}
use mathlib.Core.Option
use obsidian_archivist.Paths.Cells.{is_digit}
use obsidian_archivist.Common.Text.{Text-discrete, same, codes, Text}
use obsidian_archivist.Model.Manifest.{inc, full, SnapshotType}
use obsidian_archivist.Common.{
  true, zero, inr, inl, ◌&&◌, ◌-◌, Option-cases, ◌+◌, ◌==◌, refl, ◌||◌, is_some, ◌++◌, suc, ◌*◌,
  arith, if◌then◌else◌, false, ◌≡◌, ℕ, Bool, Option, none, some, [], ◌∷◌,
}

-- `(\d{n})` at the front of a text: the group and the rest.
unfoldable pub take_digits : ℕ → Text → Option (Text × Text)
take_digits zero t = some ([], t)
take_digits (suc n) [] = none
take_digits (suc n) (c ∷ t) =
    let rest = take_digits n t in
    if is_digit c then Option.map (λ (r : Text × Text). (c ∷ r.0, r.1)) rest else none

-- A character that stands for itself.
abbrev pub expect : ℕ → Text → Option Text
expect d [] = none
expect d (c ∷ t) = if c == d then some t else none

-- The groups of the patterns.
pub record Stamp : Type 0 where
  pub year : Text
  pub month : Text
  pub day : Text
  pub hour : Text
  pub minute : Text

-- `(\d{n})<sep>` at the front of a text.
unfoldable pub group : ℕ → ℕ → Text → Option (Text × Text)
unfolding take_digits
group n sep t = elim (take_digits n t) [
  | none ↦ none
  | some (front, r) ↦ Option.map (λ (rest : Text). (front, rest)) (expect sep r)
]

infixl 5 ◌>>=◌
abbrev pub ◌>>=◌ {ℓ κ} : {A : Type ℓ} {B : Type κ} → Option A → (A → Option B) → Option B
none >>= f = none
some a >>= f = f a

-- `(\d{4})-(\d{2})-(\d{2})T(\d{2})<sep>(\d{2})` at the front of a text: the groups and the rest.
unfoldable pub read_stamp : ℕ → Text → Option (Stamp × Text)
read_stamp sep t = do
  y ← group 4 45 t
  mo ← group 2 45 y.1
  d ← group 2 84 mo.1
  h ← group 2 sep d.1
  mi ← take_digits 2 h.1
  some (record { year = y.0; month = mo.0; day = d.0; hour = h.0; minute = mi.0 }, mi.1)

abbrev pub print_stamp : ℕ → Stamp → Text → Text
print_stamp sep s rest =
    s.year ++ 45 ∷ (s.month ++ 45 ∷ (s.day ++ 84 ∷ (s.hour ++ sep ∷ (s.minute ++ rest))))

abbrev pub kind_text : SnapshotType → Text
kind_text full = codes "full"
kind_text inc = codes "inc"

-- `deriveId`: none where it throws.
unfoldable pub derive_id : Text → SnapshotType → Option Text
derive_id created_at kind =
    Option.map (λ (r : Stamp × Text). print_stamp 45 r.0 (45 ∷ kind_text kind))
      (read_stamp 58 created_at)

abbrev pub is_kind_text : Text → Bool
is_kind_text t = same t (codes "full") || same t (codes "inc")

-- `-(full|inc)$`.
abbrev pub ends_in_kind : Text → Bool
ends_in_kind [] = false
ends_in_kind (c ∷ t) = c == 45 && is_kind_text t

-- `/^\d{4}-\d{2}-\d{2}T\d{2}-\d{2}-(full|inc)$/.exec`, with the groups.
unfoldable pub read_snapshot_id : Text → Option Stamp
read_snapshot_id id = do r ← read_stamp 45 id; if ends_in_kind r.1 then some r.0 else none

abbrev pub is_snapshot_id : Text → Bool
is_snapshot_id id = is_some (read_snapshot_id id)

-- `Number` on a text of digits.
abbrev pub number_from : ℕ → Text → ℕ
number_from n [] = n
number_from n (c ∷ t) = number_from (10 * n + (c - 48)) t

-- `Date.UTC` of a year, a month, a day, an hour and a minute. Months count from zero; none is -1.
abbrev pub Utc : Type 0
Utc = ℕ → Option ℕ → ℕ → ℕ → ℕ → ℕ

-- `Number(mo) - 1`.
abbrev pub minus_one : ℕ → Option ℕ
minus_one zero = none
minus_one (suc n) = some n

abbrev pub epoch_of : Utc → Stamp → ℕ
epoch_of utc s =
    utc (number_from 0 s.year) (minus_one (number_from 0 s.month)) (number_from 0 s.day)
      (number_from 0 s.hour) (number_from 0 s.minute)

unfoldable pub epoch_ms_from_snapshot_id : Utc → Text → Option ℕ
epoch_ms_from_snapshot_id utc id = Option.map (epoch_of utc) (read_snapshot_id id)

take_digits-again :
    (n : ℕ) (t front rest more : Text)
    → take_digits n t ≡ some (front, rest)
    → take_digits n (front ++ more) ≡ some (front, more)
unfolding take_digits
take_digits-again zero t front rest more h = ground arith
take_digits-again (suc n) [] front rest more h = absurd (ground arith)
take_digits-again (suc n) (c ∷ t) front rest more h = elim (Option-cases (take_digits n t)) [
  | inl e ↦ absurd (ground arith)
  | inr ((f, r), e) ↦ ground (arith, take_digits-again n t f r more e)
]

-- A text that `take_digits` gives whole in front of any other.
abbrev pub Reads : ℕ → Text → Type 0
Reads n front = (more : Text) → take_digits n (front ++ more) ≡ some (front, more)

group-Reads : (n sep : ℕ) (t front rest : Text) → group n sep t ≡ some (front, rest) → Reads n front
unfolding group
group-Reads n sep t front rest h more = elim (Option-cases (take_digits n t)) [
  | inl e ↦ absurd (ground arith)
  | inr ((f, r), e) ↦ ground (arith, take_digits-again n t f r more e)
]

group-append :
    (n sep : ℕ) (front more : Text)
    → Reads n front
    → group n sep (front ++ sep ∷ more) ≡ some (front, more)
unfolding group
group-append n sep front more reads = ground (arith, reads (sep ∷ more))

abbrev pub IsReadable : Stamp → Type 0
IsReadable s = Reads 4 s.year × Reads 2 s.month × Reads 2 s.day × Reads 2 s.hour × Reads 2 s.minute

-- The groups that were read are read again, whatever the separator.
read_stamp-IsReadable :
    (sep : ℕ) (t rest : Text) (s : Stamp) → read_stamp sep t ≡ some (s, rest) → IsReadable s
unfolding read_stamp
read_stamp-IsReadable sep t rest s h = elim (Option-cases (group 4 45 t)) [
  | inl e ↦ absurd (ground arith)
  | inr ((y, r1), e1) ↦ elim (Option-cases (group 2 45 r1)) [
    | inl e ↦ absurd (ground arith)
    | inr ((mo, r2), e2) ↦ elim (Option-cases (group 2 84 r2)) [
      | inl e ↦ absurd (ground arith)
      | inr ((d, r3), e3) ↦ elim (Option-cases (group 2 sep r3)) [
        | inl e ↦ absurd (ground arith)
        | inr ((ho, r4), e4) ↦ elim (Option-cases (take_digits 2 r4)) [
          | inl e ↦ absurd (ground arith)
          | inr ((mi, r5), e5) ↦ (
            λ (more : Text). ground (arith, group-Reads 4 45 t y r1 e1 more),
            λ (more : Text). ground (arith, group-Reads 2 45 r1 mo r2 e2 more),
            λ (more : Text). ground (arith, group-Reads 2 84 r2 d r3 e3 more),
            λ (more : Text). ground (arith, group-Reads 2 sep r3 ho r4 e4 more),
            λ (more : Text). ground (arith, take_digits-again 2 r4 mi r5 more e5),
          )
        ]
      ]
    ]
  ]
]

-- What was read with one separator is read again from its print with another.
read_stamp-print_stamp :
    (sep other : ℕ) (t rest more : Text) (s : Stamp)
    → read_stamp sep t ≡ some (s, rest)
    → read_stamp other (print_stamp other s more) ≡ some (s, more)
unfolding read_stamp
read_stamp-print_stamp sep other t rest more s h =
    let (y, mo, d, ho, mi) = read_stamp-IsReadable sep t rest s h in
    ground (
      arith,
      group-append 4 45 s.year
          (s.month ++ 45 ∷ (s.day ++ 84 ∷ (s.hour ++ other ∷ (s.minute ++ more)))) y,
      group-append 2 45 s.month (s.day ++ 84 ∷ (s.hour ++ other ∷ (s.minute ++ more))) mo,
      group-append 2 84 s.day (s.hour ++ other ∷ (s.minute ++ more)) d,
      group-append 2 other s.hour (s.minute ++ more) ho,
      mi more,
    )

ends_in_kind-kind_text : (kind : SnapshotType) → ends_in_kind (45 ∷ kind_text kind) ≡ true
unfolding Text-discrete
ends_in_kind-kind_text full = refl
ends_in_kind-kind_text inc = refl

read_snapshot_id-derive_id :
    (created_at id : Text) (kind : SnapshotType)
    → derive_id created_at kind ≡ some id
    → read_snapshot_id id ≡ Option.map (λ (r : Stamp × Text). r.0) (read_stamp 58 created_at)
unfolding derive_id read_snapshot_id
read_snapshot_id-derive_id created_at id kind h = elim (Option-cases (read_stamp 58 created_at)) [
  | inl e ↦ absurd (ground arith)
  | inr ((s, rest), e) ↦ ground (
    arith,
    read_stamp-print_stamp 58 45 created_at rest (45 ∷ kind_text kind) s e,
    ends_in_kind-kind_text kind,
  )
]

-- A snapshot id that a commit derives from a timestamp has the form that the builder of its remote
-- path asks for.
pub derive_id-is_snapshot_id :
    (created_at id : Text) (kind : SnapshotType)
    → derive_id created_at kind ≡ some id
    → is_snapshot_id id ≡ true
unfolding derive_id
derive_id-is_snapshot_id created_at id kind h =
    ground (arith, read_snapshot_id-derive_id created_at id kind h)

-- So many digits.
abbrev pub are_digits : ℕ → Text → Bool
are_digits zero [] = true
are_digits zero (c ∷ t) = false
are_digits (suc n) [] = false
are_digits (suc n) (c ∷ t) = is_digit c && are_digits n t

are_digits-Reads : (n : ℕ) (front : Text) → are_digits n front ≡ true → Reads n front
unfolding take_digits
are_digits-Reads zero [] h more = refl
are_digits-Reads zero (c ∷ t) h more = absurd (ground arith)
are_digits-Reads (suc n) [] h more = absurd (ground arith)
are_digits-Reads (suc n) (c ∷ t) h more = ground (arith, are_digits-Reads n t (ground arith) more)

read_timestamp :
    (y mo d h mi rest : Text)
    → are_digits 4 y ≡ true
    → are_digits 2 mo ≡ true
    → are_digits 2 d ≡ true
    → are_digits 2 h ≡ true
    → are_digits 2 mi ≡ true
    → read_stamp 58 (y ++ 45 ∷ (mo ++ 45 ∷ (d ++ 84 ∷ (h ++ 58 ∷ (mi ++ rest)))))
      ≡ some (record { year = y; month = mo; day = d; hour = h; minute = mi }, rest)
unfolding read_stamp
read_timestamp y mo d h mi rest dy dmo dd dh dmi = ground (
  arith,
  group-append 4 45 y (mo ++ 45 ∷ (d ++ 84 ∷ (h ++ 58 ∷ (mi ++ rest)))) (are_digits-Reads 4 y dy),
  group-append 2 45 mo (d ++ 84 ∷ (h ++ 58 ∷ (mi ++ rest))) (are_digits-Reads 2 mo dmo),
  group-append 2 84 d (h ++ 58 ∷ (mi ++ rest)) (are_digits-Reads 2 d dd),
  group-append 2 58 h (mi ++ rest) (are_digits-Reads 2 h dh),
  are_digits-Reads 2 mi dmi rest,
)

-- The id of a snapshot holds the minute of its timestamp: a timestamp `YYYY-MM-DDTHH:MM...` has an
-- id, and reading the id back as an instant gives `Date.UTC` of the numbers YYYY, MM less one, DD, HH
-- and MM.
pub epoch-derive_id :
    (utc : Utc) (kind : SnapshotType) (y mo d h mi rest : Text)
    → are_digits 4 y ≡ true
    → are_digits 2 mo ≡ true
    → are_digits 2 d ≡ true
    → are_digits 2 h ≡ true
    → are_digits 2 mi ≡ true
    → (id : Text) × (derive_id (y ++ 45 ∷ (mo ++ 45 ∷ (d ++ 84 ∷ (h ++ 58 ∷ (mi ++ rest))))) kind
        ≡ some id)
      × (epoch_ms_from_snapshot_id utc id
          ≡ some (
              utc
                (number_from 0 y)
                (minus_one (number_from 0 mo))
                (number_from 0 d)
                (number_from 0 h)
                (number_from 0 mi)))
unfolding epoch_ms_from_snapshot_id derive_id
epoch-derive_id utc kind y mo d h mi rest dy dmo dd dh dmi =
    let created_at = y ++ 45 ∷ (mo ++ 45 ∷ (d ++ 84 ∷ (h ++ 58 ∷ (mi ++ rest)))) in
    let s : Stamp = record { year = y; month = mo; day = d; hour = h; minute = mi } in
    let id = print_stamp 45 s (45 ∷ kind_text kind) in
    let read = read_timestamp y mo d h mi rest dy dmo dd dh dmi in
    let named : derive_id created_at kind ≡ some id = rw read refl in
    (id, named, ground (arith, read, read_snapshot_id-derive_id created_at id kind named))

-- Timestamps that start with the same minute give the same id.
pub derive_id_same_minute :
    (earlier later before rest : Text) (s : Stamp) (kind : SnapshotType)
    → read_stamp 58 earlier ≡ some (s, before)
    → read_stamp 58 later ≡ some (s, rest)
    → derive_id earlier kind ≡ derive_id later kind
unfolding derive_id
derive_id_same_minute earlier later before rest s kind h k = rw (h, k) refl

pub live-snapshot_id : (id : Text) → is_snapshot_id id ≡ true → live (some id) ≡ some id
unfolding read_snapshot_id read_stamp group
live-snapshot_id [] h = absurd (ground arith)
live-snapshot_id (c ∷ t) h = refl
