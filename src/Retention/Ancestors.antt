-- ===== src/Retention/Ancestors.antt =====
-- src/services/retention/chainIntegrity.ts: a kept snapshot keeps its ancestors up to the nearest
-- full one. The rounds of the inner loop are bounded by fuel; `none` means that it ran out.
use obsidian_archivist.Restore.Chain.{is_full_kind}
use obsidian_archivist.Model.Manifest.{SnapshotType}
use obsidian_archivist.Common.Text.{Text-discrete, Text}
use obsidian_archivist.Common.{
  zero, add, not, has, true, get, suc, is_some, false, ℕ, put, Bool, Option, none, some, List, [],
  ◌∷◌,
}

pub record ChainSnapshot : Type 0 where
  pub id : Text
  pub kind : SnapshotType
  pub parent_id : Option Text

-- The two maps from ids that the function builds: a later snapshot with an id replaces an earlier.
pub record Links : Type 0 where
  pub parent : List (Text × Option Text)
  pub type_by_id : List (Text × SnapshotType)

unfoldable pub links_from : List ChainSnapshot → Links → Links
links_from [] l = l
links_from (s ∷ ss) l = links_from ss (record {
  parent = put Text-discrete l.parent s.id s.parent_id;
  type_by_id = put Text-discrete l.type_by_id s.id s.kind;
})

abbrev pub no_links : Links
no_links = record { parent = []; type_by_id = [] }

unfoldable pub links_of : List ChainSnapshot → Links
unfolding links_from
links_of ss = links_from ss no_links

-- The kept ids, and the referrers that a warning was logged for.
pub record Marked : Type 0 where
  pub chain_keep : List Text
  pub warned_orphans : List Text

abbrev pub is_known : Links → Text → Bool
is_known l c = is_some (get Text-discrete l.type_by_id c)

abbrev pub is_full_id : Links → Text → Bool
is_full_id l c = elim (get Text-discrete l.type_by_id c) [ none ↦ false | some k ↦ is_full_kind k ]

-- `rawParent !== undefined ? rawParent : null`.
abbrev pub parent_of : Links → Text → Option Text
parent_of l c = elim (get Text-discrete l.parent c) [ none ↦ none | some p ↦ p ]

abbrev pub is_missing : Links → Option Text → Bool
is_missing l none = false
is_missing l (some p) = not (is_known l p)

unfoldable pub climb : ℕ → Links → Option Text → List Text → Marked → Option Marked
climb zero l cur visited m = none
climb (suc fuel) l none visited m = some m
climb (suc fuel) l (some c) visited m = elim (has Text-discrete visited c) [
  | true ↦ some m
  | false ↦
      let kept = record m { chain_keep = add Text-discrete m.chain_keep c } in
      elim (is_full_id l c) [
        | true ↦ some kept
        | false ↦ elim (is_missing l (parent_of l c)) [
          | true ↦ some (record kept { warned_orphans = add Text-discrete kept.warned_orphans c })
          | false ↦ climb fuel l (parent_of l c) (add Text-discrete visited c) kept
        ]
      ]
]

unfoldable pub climb_all : ℕ → Links → List Text → Marked → Option Marked
unfolding climb
climb_all fuel l [] m = some m
climb_all fuel l (start ∷ starts) m = elim (is_known l start) [
  | false ↦ climb_all fuel l starts m
  | true ↦ elim (climb fuel l (some start) [] m) [
    | none ↦ none
    | some m' ↦ climb_all fuel l starts m'
  ]
]

abbrev pub unmarked : Marked
unmarked = record { chain_keep = []; warned_orphans = [] }

unfoldable pub augment_with_ancestors : ℕ → List Text → List ChainSnapshot → Option Marked
unfolding climb_all links_of
augment_with_ancestors fuel tier_kept ss = climb_all fuel (links_of ss) tier_kept unmarked
