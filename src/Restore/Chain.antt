-- ===== src/Restore/Chain.antt =====
-- src/services/RestoreService.ts, `loadChainToFull`: the walk from a snapshot along its parents to
-- the nearest full one. The manifest loader is a parameter: what each id loads as, or how it fails.
-- Rounds of the `while` loop are bounded by fuel; `none` means that the fuel ran out.
use obsidian_archivist.Common.Text.{Text-discrete, Text}
use obsidian_archivist.Model.Manifest.{inc, Files, full, SnapshotType, SnapshotManifest}
use obsidian_archivist.Model.Failure.{err, ok, ◌>>=◌, path_not_found, Result, chain_broken, Failure}
use obsidian_archivist.Restore.Replay.{materialize}
use obsidian_archivist.Common.{
  zero, add, ◌++◌, has, if◌then◌else◌, suc, false, true, ℕ, Bool, Option, none, some, List, [], ◌∷◌,
}
use mathlib.Core.Option

abbrev pub Loader : Type 0
Loader = Text → Result SnapshotManifest

abbrev pub is_full_kind : SnapshotType → Bool
is_full_kind full = true
is_full_kind inc = false

-- A manifest that is missing breaks the chain; other failures go on as they are.
abbrev pub as_chain_error : Failure → Failure
as_chain_error path_not_found = chain_broken
as_chain_error e = e

-- `while (cursor)`: null and the empty text end the loop.
abbrev pub live : Option Text → Option Text
live none = none
live (some []) = none
live (some (x ∷ c)) = some (x ∷ c)

unfoldable pub walk :
    ℕ
    → Loader
    → Option Text
    → List Text
    → List SnapshotManifest
    → Option (Result (List SnapshotManifest))
walk zero load cursor seen chain = none
walk (suc fuel) load cursor seen chain = elim (live cursor) [
  | none ↦ some (ok chain)
  | some c ↦ elim (has Text-discrete seen c) [
    | true ↦ some (err chain_broken)
    | false ↦ elim (load c) [
      | err e ↦ some (err (as_chain_error e))
      | ok m ↦ elim (is_full_kind m.kind) [
        | true ↦ some (ok (chain ++ m ∷ []))
        | false ↦ walk fuel load m.parent_id (add Text-discrete seen c) (chain ++ m ∷ [])
      ]
    ]
  ]
]

-- The last manifest is there and full.
abbrev pub ends_full : List SnapshotManifest → Bool
ends_full [] = false
ends_full (m ∷ []) = is_full_kind m.kind
ends_full (m ∷ n ∷ ms) = ends_full (n ∷ ms)

abbrev pub check_end : List SnapshotManifest → Result (List SnapshotManifest)
check_end chain = if ends_full chain then ok chain else err chain_broken

unfoldable pub load_chain_to_full : ℕ → Loader → Text → Option (Result (List SnapshotManifest))
unfolding walk
load_chain_to_full fuel load target =
    Option.map (λ r. r >>= check_end) (walk fuel load (some target) [] [])

-- `materializeVaultStateAt`.
unfoldable pub materialize_vault_state_at : ℕ → Loader → Text → Option (Result Files)
unfolding load_chain_to_full materialize
materialize_vault_state_at fuel load target =
    Option.map (λ r. r >>= λ chain. ok (materialize chain)) (load_chain_to_full fuel load target)
