-- ===== src/Retention/Chains.antt =====
-- What the augmentation of the tiers' ids guarantees of the chains of snapshots.
use obsidian_archivist.Model.Manifest.{SnapshotType}
use obsidian_archivist.Retention.Closure.{
  climb_keeps_start, climb_total, climb_grows, is_held, climb-HeldBut, ids_known,
}
use obsidian_archivist.Common.Text.{Text-discrete, Text}
use obsidian_archivist.Retention.Ancestors.{
  no_links, unmarked, links_of, climb, is_known, Marked, ChainSnapshot, links_from, climb_all,
  augment_with_ancestors, Links,
}
use obsidian_archivist.Common.{
  refl, not, length-filter-le, length-map, Option-cases, length-put-le, put, inl, ◌||◌, inr, ◌+◌,
  arith, Bool-cases, true, is_some, ◌≤◌, ◌≡◌, ◌<◌, length, has, ℕ, some, List, [], ◌∷◌,
}

abbrev pub AllHeld : Links → List Text → Type 0
AllHeld l keep = (x : Text) → has Text-discrete keep x ≡ true → is_held l keep x ≡ true

climb-AllHeld :
    (fuel : ℕ) (l : Links) (c : Text) (m r : Marked)
    → AllHeld l m.chain_keep
    → climb fuel l (some c) [] m ≡ some r
    → AllHeld l r.chain_keep
climb-AllHeld fuel l c m r h e x k =
    climb-HeldBut x fuel l (some c) [] m r (λ y s. absurd (ground arith)) (λ y s. inl (h y s)) e k

climb_all-AllHeld :
    (fuel : ℕ) (l : Links) (starts : List Text) (m r : Marked)
    → AllHeld l m.chain_keep
    → climb_all fuel l starts m ≡ some r
    → AllHeld l r.chain_keep
unfolding climb_all
climb_all-AllHeld fuel l [] m r h e = λ x k. ground (arith, h x)
climb_all-AllHeld fuel l (s ∷ ss) m r h e = elim (Bool-cases (is_known l s)) [
  | inr u ↦ climb_all-AllHeld fuel l ss m r h (ground arith)
  | inl u ↦ elim (Option-cases (climb fuel l (some s) [] m)) [
    | inl f ↦ absurd (ground arith)
    | inr (m', f) ↦
        climb_all-AllHeld fuel l ss m' r (climb-AllHeld fuel l s m m' h f) (ground arith)
  ]
]

climb_all_keeps :
    (x : Text) (fuel : ℕ) (l : Links) (starts : List Text) (m r : Marked)
    → climb_all fuel l starts m ≡ some r
    → is_known l x ≡ true
    → (has Text-discrete starts x || has Text-discrete m.chain_keep x) ≡ true
    → has Text-discrete r.chain_keep x ≡ true
unfolding climb_all
climb_all_keeps x fuel l [] m r e u k = ground arith
climb_all_keeps x fuel l (s ∷ ss) m r e u k = elim (Bool-cases (is_known l s)) [
  | inr v ↦ ground (arith, climb_all_keeps x fuel l ss m r)
  | inl v ↦ elim (Option-cases (climb fuel l (some s) [] m)) [
    | inl f ↦ absurd (ground arith)
    | inr (m', f) ↦ ground (
      arith,
      climb_all_keeps x fuel l ss m' r,
      climb_grows x fuel l (some s) [] m m' f,
      climb_keeps_start fuel l s m m' f,
    )
  ]
]

climb_all_total :
    (fuel : ℕ) (l : Links) (starts : List Text) (m : Marked)
    → length (ids_known l) < fuel
    → is_some (climb_all fuel l starts m) ≡ true
unfolding climb_all
climb_all_total fuel l [] m enough = refl
climb_all_total fuel l (s ∷ ss) m enough = elim (Bool-cases (is_known l s)) [
  | inr v ↦ ground (arith, climb_all_total fuel l ss m)
  | inl v ↦ elim (Option-cases (climb fuel l (some s) [] m)) [
    | inl f ↦ absurd (
        ground (
          arith,
          climb_total fuel l (some s) [] m v,
          length-filter-le Text-discrete (λ (i : Text). not (has Text-discrete [] i)) (ids_known l),
        ))
    | inr (m', f) ↦ ground (arith, climb_all_total fuel l ss m')
  ]
]

length-links_from :
    (ss : List ChainSnapshot) (l : Links)
    → length (ids_known (links_from ss l)) ≤ length (ids_known l) + length ss
unfolding links_from
length-links_from [] l = omega arith
length-links_from (s ∷ ss) l =
    let m : Links = record {
      parent = put Text-discrete l.parent s.id s.parent_id;
      type_by_id = put Text-discrete l.type_by_id s.id s.kind;
    } in
    omega (
      arith,
      length-links_from ss m,
      length-put-le Text-discrete l.type_by_id s.id s.kind,
      length-map (λ (e : Text × SnapshotType). e.0) l.type_by_id,
      length-map (λ (e : Text × SnapshotType). e.0) (put Text-discrete l.type_by_id s.id s.kind),
    )

-- The augmentation returns for every input, chains with cycles and missing parents included: with
-- more rounds than there are snapshots no walk runs out of them.
pub augment_with_ancestors_total :
    (fuel : ℕ) (tier_kept : List Text) (ss : List ChainSnapshot)
    → length ss < fuel
    → is_some (augment_with_ancestors fuel tier_kept ss) ≡ true
unfolding augment_with_ancestors
augment_with_ancestors_total fuel tier_kept ss enough =
    climb_all_total fuel (links_of ss) tier_kept unmarked
      (omega (arith, length-links_from ss no_links))

-- The kept ids are closed under parents: each kept snapshot is full, or its parent is null or not
-- among the snapshots, or its parent is kept too.
pub augment_with_ancestors_closed :
    (fuel : ℕ) (tier_kept : List Text) (ss : List ChainSnapshot) (r : Marked)
    → augment_with_ancestors fuel tier_kept ss ≡ some r
    → (x : Text) → has Text-discrete r.chain_keep x ≡ true
    → is_held (links_of ss) r.chain_keep x ≡ true
unfolding augment_with_ancestors
augment_with_ancestors_closed fuel tier_kept ss r e x k =
    climb_all-AllHeld fuel (links_of ss) tier_kept unmarked r (λ y h. absurd (ground arith)) e x k

-- The augmentation loses nothing: an id that the tiers keep and that a snapshot has stays kept.
pub augment_with_ancestors_keeps :
    (fuel : ℕ) (tier_kept : List Text) (ss : List ChainSnapshot) (r : Marked) (x : Text)
    → augment_with_ancestors fuel tier_kept ss ≡ some r
    → has Text-discrete tier_kept x ≡ true
    → is_known (links_of ss) x ≡ true
    → has Text-discrete r.chain_keep x ≡ true
unfolding augment_with_ancestors
augment_with_ancestors_keeps fuel tier_kept ss r x e t k =
    climb_all_keeps x fuel (links_of ss) tier_kept unmarked r e k (ground arith)
