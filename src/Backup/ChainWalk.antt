-- ===== src/Backup/ChainWalk.antt =====
-- src/services/BackupService.ts, `walkChainToFull`: the check before an incremental that the chain
-- of its parent reaches a full snapshot. The download of a manifest is a parameter; of a manifest
-- the walk reads whether its type is full and its parent, none where that is no string.
use obsidian_archivist.Restore.Walk.{Result-cases}
use obsidian_archivist.Model.Failure.{Failure, path_not_found, err, ok, Result}
use obsidian_archivist.Common.Text.{Text-discrete, Text}
use obsidian_archivist.Common.{
  refl, Option-cases, inl, add, inr, zero, Bool-cases, ◌⊎◌, ◌≢◌, arith, has, true, ◌<◌, leb, false,
  ◌≤◌, suc, ◌≡◌, ◌+◌, ℕ, Bool, Option, none, some, List, [],
}

pub record Link : Type 0 where
  pub is_full : Bool
  pub parent_id : Option Text

pub data BreakReason : Type 0 where
  missing_manifest cycle invalid_schema depth_exceeded : BreakReason

-- A broken chain names the missing id, the referrer and the depth that was walked.
pub data ChainStatus : Type 0 where
  intact : ℕ → ChainStatus
  broken : Option Text → Text → ℕ → BreakReason → ChainStatus

abbrev pub chain_walk_max_depth : ℕ
chain_walk_max_depth = 100

-- A manifest that is missing breaks the chain; other failures go on.
abbrev pub download_failed : Failure → Text → Text → ℕ → Result ChainStatus
download_failed path_not_found cursor last_seen depth =
    ok (broken (some cursor) last_seen depth missing_manifest)
download_failed f cursor last_seen depth = err f

unfoldable pub walk_chain :
    ℕ → (Text → Result Link) → Text → Text → List Text → ℕ → Option (Result ChainStatus)
walk_chain zero load cursor last_seen seen depth = none
walk_chain (suc fuel) load cursor last_seen seen depth = elim (leb chain_walk_max_depth depth) [
  | true ↦ some (ok (broken none last_seen depth depth_exceeded))
  | false ↦ elim (has Text-discrete seen cursor) [
    | true ↦ some (ok (broken (some cursor) last_seen depth cycle))
    | false ↦ elim (load cursor) [
      | err path_not_found ↦ some (ok (broken (some cursor) last_seen depth missing_manifest))
      | err f ↦ some (err f)
      | ok link ↦ elim link.is_full [
        | true ↦ some (ok (intact (depth + 1)))
        | false ↦ elim link.parent_id [
          | none ↦ some (ok (broken none cursor (depth + 1) invalid_schema))
          | some p ↦ walk_chain fuel load p cursor (add Text-discrete seen cursor) (depth + 1)
        ]
      ]
    ]
  ]
]

-- One round more than the greatest depth is enough.
unfoldable pub walk_chain_to_full : (Text → Result Link) → Text → Option (Result ChainStatus)
unfolding walk_chain
walk_chain_to_full load start = walk_chain (chain_walk_max_depth + 1) load start start [] 0

-- The parents of an id reach a full snapshot, which is the last of so many links.
abbrev pub ReachesFull : (Text → Result Link) → Text → ℕ → Type 0
ReachesFull load c zero = ⊥
ReachesFull load c (suc n) =
    (link : Link) × (load c ≡ ok link)
    × (((link.is_full ≡ true) × (n ≡ 0))
        ⊎ ((p : Text) × (link.is_full ≡ false) × (link.parent_id ≡ some p) × ReachesFull load p n))

-- What an answer claims of a walk that stands at an id, so many links down.
abbrev pub IsJustified : (Text → Result Link) → Text → ℕ → Result ChainStatus → Type 0
IsJustified load c depth (ok (intact d)) =
    (k : ℕ) × (d ≡ depth + k) × (d ≤ chain_walk_max_depth) × ReachesFull load c k
IsJustified load c depth (ok (broken m r d why)) = d ≤ chain_walk_max_depth
IsJustified load c depth (err f) = f ≢ path_not_found

IsJustified-step :
    (load : Text → Result Link) (c p : Text) (link : Link) (depth : ℕ) (r : Result ChainStatus)
    → load c ≡ ok link
    → link.is_full ≡ false
    → link.parent_id ≡ some p
    → IsJustified load p (depth + 1) r
    → IsJustified load c depth r
IsJustified-step load c p link depth (ok (intact d)) l f e (k, h, b, full) =
    (suc k, omega (arith, h), b, (link, l, inr (p, f, e, full)))
IsJustified-step load c p link depth (ok (broken m r d why)) l f e h = h
IsJustified-step load c p link depth (err g) l f e h = h

download_failed-IsJustified :
    (load : Text → Result Link) (f : Failure) (c last : Text) (depth : ℕ)
    → depth ≤ chain_walk_max_depth
    → IsJustified load c depth (download_failed f c last depth)
download_failed-IsJustified load path_not_found c last depth b = b
download_failed-IsJustified load _ c last depth b = λ e. absurd (ground arith)

walk_chain-IsJustified :
    (fuel : ℕ) (load : Text → Result Link) (c last : Text) (seen : List Text) (depth : ℕ)
    → depth ≤ chain_walk_max_depth
    → chain_walk_max_depth < fuel + depth
    → (r : Result ChainStatus) × (walk_chain fuel load c last seen depth ≡ some r)
      × IsJustified load c depth r
unfolding walk_chain
walk_chain-IsJustified zero load c last seen depth b enough = absurd (omega arith)
walk_chain-IsJustified (suc fuel) load c last seen depth b enough =
    elim (Bool-cases (leb chain_walk_max_depth depth)) [
      | inl e ↦ (ok (broken none last depth depth_exceeded), ground arith, b)
      | inr e ↦ elim (Bool-cases (has Text-discrete seen c)) [
        | inl s ↦ (ok (broken (some c) last depth cycle), ground arith, b)
        | inr s ↦ elim (Result-cases (load c)) [
          | inr (f, l) ↦ (
            download_failed f c last depth,
            ground arith,
            download_failed-IsJustified load f c last depth b,
          )
          | inl (link, l) ↦ elim (Bool-cases link.is_full) [
            | inl u ↦ (
              ok (intact (depth + 1)),
              ground arith,
              (1, refl, ground arith, (link, l, inl (u, refl))),
            )
            | inr u ↦ elim (Option-cases link.parent_id) [
              | inl n ↦ (ok (broken none c (depth + 1) invalid_schema), ground arith, ground arith)
              | inr (p, n) ↦
                  let (r, w, j) =
                    walk_chain-IsJustified fuel load p c (add Text-discrete seen c) (depth + 1)
                      (ground arith) (omega (arith, enough)) in
                  (r, ground (arith, w), IsJustified-step load c p link depth r l u n j)
            ]
          ]
        ]
      ]
    ]

-- The walk always answers: with a number of links of at most a hundred at whose end the parents of
-- the start do reach a full snapshot, with a break at a depth of at most a hundred, or with the
-- failure of a download that is not a missing file.
pub walk_chain_to_full-IsJustified :
    (load : Text → Result Link) (start : Text)
    → (r : Result ChainStatus) × (walk_chain_to_full load start ≡ some r)
      × IsJustified load start 0 r
unfolding walk_chain_to_full
walk_chain_to_full-IsJustified load start =
    walk_chain-IsJustified (chain_walk_max_depth + 1) load start start [] 0 (omega arith)
      (omega arith)
