-- ===== src/Restore/Complete.antt =====
-- The walk to a full snapshot finds every chain that there is.
use mathlib.Core.List.{append_assoc}
use obsidian_archivist.Model.Failure.{ok}
use obsidian_archivist.Restore.Walk.{ChainFrom}
use obsidian_archivist.Model.Manifest.{SnapshotManifest}
use obsidian_archivist.Restore.Chain.{ends_full, load_chain_to_full, walk, live, Loader}
use obsidian_archivist.Common.Text.{Text-discrete, Text}
use obsidian_archivist.Common.{
  has-add, sym, zero, Bool-cases, suc, false, add, ◌++◌, ap, ◌<◌, inr, ◌∙◌, inl, true, ◌≤◌, arith,
  ◌≡◌, has, length, ℕ, Option, none, some, List, [], ◌∷◌,
}

-- Of a cursor there is one chain at most, so that its length is determined.
ChainFrom-length :
    (load : Loader) (a b : Option Text) (ms ns : List SnapshotManifest)
    → live a ≡ live b
    → ChainFrom load a ms
    → ChainFrom load b ns
    → length ms ≡ length ns
ChainFrom-length load a b [] ns e h k = absurd h
ChainFrom-length load a b (m ∷ ms) [] e h k = absurd k
ChainFrom-length load a b (m ∷ ms) (n ∷ ns) e (c, l, g, inl (f, none_left))
      (d, l2, g2, inl (f2, none2)) =
    ground arith
ChainFrom-length load a b (m ∷ ms) (n ∷ ns) e (c, l, g, inl (f, none_left))
      (d, l2, g2, inr (i, k)) =
    absurd (ground arith)
ChainFrom-length load a b (m ∷ ms) (n ∷ ns) e (c, l, g, inr (i, h)) (d, l2, g2, inl (f, none2)) =
    absurd (ground arith)
ChainFrom-length load a b (m ∷ ms) (n ∷ ns) e (c, l, g, inr (i, h)) (d, l2, g2, inr (i2, k)) =
    let same_manifest : m ≡ n = ground arith in
    let rest =
      ChainFrom-length load m.parent_id n.parent_id ms ns
        (ap (λ (x : SnapshotManifest). live x.parent_id) same_manifest) h k in
    omega (arith, rest)

-- The visited ids start longer chains than the cursor.
abbrev pub SeenAbove : Loader → List Text → List SnapshotManifest → Type 0
SeenAbove load seen chain =
    (s : Text)
    → has Text-discrete seen s ≡ true
    → (long : List SnapshotManifest) × ChainFrom load (some s) long × (length chain < length long)

live-live : (cursor : Option Text) (c : Text) → live cursor ≡ some c → live (some c) ≡ some c
live-live none c h = absurd (ground arith)
live-live (some []) c h = absurd (ground arith)
live-live (some (x ∷ t)) c h = ground arith

ChainFrom-live :
    (load : Loader) (a b : Option Text) (ms : List SnapshotManifest)
    → live a ≡ live b
    → ChainFrom load b ms
    → ChainFrom load a ms
ChainFrom-live load a b [] e h = absurd h
ChainFrom-live load a b (m ∷ ms) e (c, l, g, h) = (c, e ∙ l, g, h)

not-seen :
    (load : Loader) (cursor : Option Text) (c : Text) (seen : List Text)
    (chain : List SnapshotManifest)
    → live cursor ≡ some c
    → SeenAbove load seen chain
    → ChainFrom load cursor chain
    → has Text-discrete seen c ≡ false
not-seen load cursor c seen chain l above h = elim (Bool-cases (has Text-discrete seen c)) [
  | inr e ↦ e
  | inl e ↦
      let (long, linked, longer) = above c e in
      let same_length =
        ChainFrom-length load cursor (some c) chain long (l ∙ sym (live-live cursor c l)) h
          linked in
      absurd (omega (arith, same_length, longer))
]

add-SeenAbove :
    (load : Loader) (cursor : Option Text) (c : Text) (seen : List Text) (m : SnapshotManifest)
    (ms : List SnapshotManifest)
    → live cursor ≡ some c
    → SeenAbove load seen (m ∷ ms)
    → ChainFrom load cursor (m ∷ ms)
    → SeenAbove load (add Text-discrete seen c) ms
add-SeenAbove load cursor c seen m ms l above h s e = elim (Bool-cases (has Text-discrete seen s)) [
  | inl k ↦ let (long, linked, longer) = above s k in (long, linked, omega (arith, longer))
  | inr k ↦
      let same_id : c ≡ s = ground (arith, has-add Text-discrete seen c s) in
      let from_c = ChainFrom-live load (some c) cursor (m ∷ ms) (live-live cursor c l ∙ sym l) h in
      (m ∷ ms, rw (sym same_id) from_c, omega arith)
]

-- The walk follows a chain to its end, if the fuel is its length and no visited id is on it.
walk_complete :
    (fuel : ℕ) (load : Loader) (cursor : Option Text) (seen : List Text)
    (acc chain : List SnapshotManifest)
    → length chain ≤ fuel
    → SeenAbove load seen chain
    → ChainFrom load cursor chain
    → walk fuel load cursor seen acc ≡ some (ok (acc ++ chain))
unfolding walk
walk_complete fuel load cursor seen acc [] enough above h = absurd h
walk_complete zero load cursor seen acc (m ∷ ms) enough above h = absurd (omega arith)
walk_complete (suc fuel) load cursor seen acc (m ∷ ms) enough above (c, l, g, inl (k, last)) =
    let fresh = not-seen load cursor c seen (m ∷ ms) l above (c, l, g, inl (k, last)) in
    ground arith
walk_complete (suc fuel) load cursor seen acc (m ∷ ms) enough above (c, l, g, inr (k, h)) =
    let whole : ChainFrom load cursor (m ∷ ms) = (c, l, g, inr (k, h)) in
    let fresh = not-seen load cursor c seen (m ∷ ms) l above whole in
    let rest =
      walk_complete fuel load m.parent_id (add Text-discrete seen c) (acc ++ m ∷ []) ms
        (omega arith) (add-SeenAbove load cursor c seen m ms l above whole) h in
    ground (arith, rest, append_assoc acc (m ∷ []) ms)

ChainFrom-ends_full :
    (load : Loader) (cursor : Option Text) (chain : List SnapshotManifest)
    → ChainFrom load cursor chain
    → ends_full chain ≡ true
ChainFrom-ends_full load cursor [] h = absurd h
ChainFrom-ends_full load cursor (m ∷ []) (c, l, g, inl (k, last)) = ground arith
ChainFrom-ends_full load cursor (m ∷ []) (c, l, g, inr (k, h)) = absurd h
ChainFrom-ends_full load cursor (m ∷ n ∷ ms) (c, l, g, inl (k, last)) = absurd (ground arith)
ChainFrom-ends_full load cursor (m ∷ n ∷ ms) (c, l, g, inr (k, h)) =
    ChainFrom-ends_full load m.parent_id (n ∷ ms) h

-- If a chain of stored manifests leads from a snapshot to a full one, the walk finds it, with as
-- many rounds as it is long: the guard against cycles stops no chain that ends.
pub load_chain_to_full_complete :
    (fuel : ℕ) (load : Loader) (target : Text) (chain : List SnapshotManifest)
    → length chain ≤ fuel
    → ChainFrom load (some target) chain
    → load_chain_to_full fuel load target ≡ some (ok chain)
unfolding load_chain_to_full
load_chain_to_full_complete fuel load target chain enough h = ground (
  arith,
  walk_complete fuel load (some target) [] [] chain enough (λ s e. absurd (ground arith)) h,
  ChainFrom-ends_full load (some target) chain h,
)
