-- ===== src/Restore/Walk.antt =====
-- The walk to the nearest full snapshot ends, and what it returns is a chain.
use obsidian_archivist.Model.Failure.{err, Failure, Result, ok}
use obsidian_archivist.Model.Manifest.{SnapshotType, inc, full, SnapshotManifest}
use obsidian_archivist.Common.Text.{Text-discrete, Text}
use obsidian_archivist.Restore.Chain.{
  check_end, load_chain_to_full, is_full_kind, ends_full, live, Loader, walk,
}
use obsidian_archivist.Model.Manifest.{full, inc}
use mathlib.Core.Option
use obsidian_archivist.Model.Failure.{◌>>=◌}
use mathlib.Core.List.{append_assoc}
use obsidian_archivist.Common.{
  length-filter-le, none, not, ◌∙◌, false, some, zero, ◌++◌, add, unseen-add-lt, refl, inr,
  Option-cases, inl, suc, arith, ◌⊎◌, is_some, ◌<◌, unseen, length, true, has, ◌≡◌, ℕ, Option, List,
  [], ◌∷◌,
}

pub Result-cases {ℓ} :
    {A : Type ℓ} (r : Result A) → ((a : A) × (r ≡ ok a)) ⊎ ((e : Failure) × (r ≡ err e))
Result-cases (ok a) = inl (a, refl)
Result-cases (err e) = inr (e, refl)

-- The ids that load are all in the list.
abbrev pub Knows : List Text → Loader → Type 0
Knows ids load = (c : Text) (m : SnapshotManifest) → load c ≡ ok m → has Text-discrete ids c ≡ true

-- The walk returns, with a result or an error, whenever the loader knows finitely many ids and the
-- fuel exceeds the number of those not yet seen.
walk_total :
    (fuel : ℕ) (load : Loader) (ids : List Text) (cursor : Option Text) (seen : List Text)
    (chain : List SnapshotManifest)
    → Knows ids load
    → length (unseen Text-discrete ids seen) < fuel
    → is_some (walk fuel load cursor seen chain) ≡ true
unfolding walk
walk_total zero load ids cursor seen chain known enough = absurd (omega arith)
walk_total (suc fuel) load ids cursor seen chain known enough = elim (Option-cases (live cursor)) [
  | inl e ↦ ground arith
  | inr (c, e) ↦ elim (Result-cases (load c)) [
    | inr (f, l) ↦ ground arith
    | inl (m, l) ↦ ground (
      arith,
      known c m l,
      unseen-add-lt Text-discrete ids seen c,
      walk_total fuel load ids m.parent_id (add Text-discrete seen c) (chain ++ m ∷ []) known,
    )
  ]
]

-- A chain from a cursor: each manifest is what the loader gives for the id before it, the last is
-- full, and all before it are incremental.
abbrev pub ChainFrom : Loader → Option Text → List SnapshotManifest → Type 0
ChainFrom load cursor [] = ⊥
ChainFrom load cursor (m ∷ ms) =
    (c : Text) × (live cursor ≡ some c)
    × (load c ≡ ok m)
    × (((m.kind ≡ full) × (ms ≡ [])) ⊎ ((m.kind ≡ inc) × ChainFrom load m.parent_id ms))

kind-cases : (k : SnapshotType) → (k ≡ full) ⊎ (k ≡ inc)
kind-cases full = inl refl
kind-cases inc = inr refl

ends_full-append :
    (chain : List SnapshotManifest) (m : SnapshotManifest)
    → ends_full (chain ++ m ∷ []) ≡ is_full_kind m.kind
ends_full-append [] m = refl
ends_full-append (x ∷ []) m = refl
ends_full-append (x ∷ y ∷ ms) m = ends_full-append (y ∷ ms) m

walk-ChainFrom :
    (fuel : ℕ) (load : Loader) (cursor : Option Text) (seen : List Text)
    (chain r : List SnapshotManifest)
    → ends_full chain ≡ false
    → walk fuel load cursor seen chain ≡ some (ok r)
    → ends_full r ≡ true
    → (rest : List SnapshotManifest) × (r ≡ chain ++ rest) × ChainFrom load cursor rest
unfolding walk
walk-ChainFrom zero load cursor seen chain r open_end w e = absurd (ground arith)
walk-ChainFrom (suc fuel) load cursor seen chain r open_end w e =
    elim (Option-cases (live cursor)) [
      | inl l ↦ absurd (ground arith)
      | inr (c, l) ↦ elim (Result-cases (load c)) [
        | inr (f, g) ↦ absurd (ground arith)
        | inl (m, g) ↦ elim (kind-cases m.kind) [
          | inl k ↦ (m ∷ [], ground arith, (c, l, g, inl (k, refl)))
          | inr k ↦
              let (rest, same_list, linked) =
                walk-ChainFrom fuel load m.parent_id (add Text-discrete seen c) (chain ++ m ∷ []) r
                  (rw (ends_full-append chain m, k)) (ground arith) e in
              (m ∷ rest, same_list ∙ append_assoc chain (m ∷ []) rest, (c, l, g, inr (k, linked)))
        ]
      ]
    ]

check_end_lem :
    (o : Option (Result (List SnapshotManifest))) (chain : List SnapshotManifest)
    → Option.map (λ r. r >>= check_end) o ≡ some (ok chain)
    → (o ≡ some (ok chain)) × (ends_full chain ≡ true)
check_end_lem none chain h = absurd (ground arith)
check_end_lem (some (err f)) chain h = absurd (ground arith)
check_end_lem (some (ok c)) chain h = ground arith

-- The walk to a full snapshot returns within as many rounds as there are ids that the loader knows,
-- and one more: with a chain or with an error, never neither.
pub load_chain_to_full_total :
    (fuel : ℕ) (load : Loader) (ids : List Text) (target : Text)
    → Knows ids load
    → length ids < fuel
    → is_some (load_chain_to_full fuel load target) ≡ true
unfolding load_chain_to_full
load_chain_to_full_total fuel load ids target known enough = ground (
  arith,
  walk_total fuel load ids (some target) [] [] known,
  length-filter-le Text-discrete (λ (i : Text). not (has Text-discrete [] i)) ids,
)

-- What the walk returns is a chain from the target: each manifest is the one that the loader gives
-- for the id before it, the last is full and all before it are incremental.
pub load_chain_to_full-ChainFrom :
    (fuel : ℕ) (load : Loader) (target : Text) (chain : List SnapshotManifest)
    → load_chain_to_full fuel load target ≡ some (ok chain)
    → ChainFrom load (some target) chain
unfolding load_chain_to_full
load_chain_to_full-ChainFrom fuel load target chain h =
    let (walked, ended) = check_end_lem (walk fuel load (some target) [] []) chain h in
    let (rest, same_list, linked) =
      walk-ChainFrom fuel load (some target) [] [] chain refl walked ended in
    rw same_list linked
