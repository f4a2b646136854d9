-- ===== src/Retention/Closure.antt =====
-- The ids that the ancestor walk keeps: it ends, it loses none of the tiers' ids, and what it keeps
-- is closed under parents.
use obsidian_archivist.Common.Text.{Text-discrete, Text}
use obsidian_archivist.Retention.Ancestors.{
  parent_of, is_missing, Marked, is_full_id, is_known, Links, climb,
}
use obsidian_archivist.Common.{
  inr, inl, Option-cases, refl, unseen-add-lt, has-keys, zero, is_some, ◌<◌, has-add, unseen, suc,
  length, ◌⊎◌, arith, ◌||◌, ◌≡◌, ℕ, true, add, has, map, Bool, Option, none, some, List, [],
}

abbrev pub ids_known : Links → List Text
ids_known l = map (λ e. e.0) l.type_by_id

abbrev pub KnownAt : Links → Option Text → Type 0
KnownAt l none = Unit {0}
KnownAt l (some c) = is_known l c ≡ true

pub climb_total :
    (fuel : ℕ) (l : Links) (cur : Option Text) (visited : List Text) (m : Marked)
    → KnownAt l cur
    → length (unseen Text-discrete (ids_known l) visited) < fuel
    → is_some (climb fuel l cur visited m) ≡ true
unfolding climb
climb_total zero l cur visited m k enough = absurd (omega arith)
climb_total (suc fuel) l none visited m k enough = refl
climb_total (suc fuel) l (some c) visited m k enough =
    let kept = record m { chain_keep = add Text-discrete m.chain_keep c } in
    ground (
      arith,
      has-keys Text-discrete l.type_by_id c,
      unseen-add-lt Text-discrete (ids_known l) visited c,
      climb_total fuel l (parent_of l c) (add Text-discrete visited c) kept,
    )

-- The parent of a kept id is kept, unless the id is a full snapshot or the parent is not there.
abbrev pub holds_parent : List Text → Option Text → Bool
holds_parent keep none = true
holds_parent keep (some p) = has Text-discrete keep p

abbrev pub is_held : Links → List Text → Text → Bool
is_held l keep x =
    is_full_id l x || is_missing l (parent_of l x) || holds_parent keep (parent_of l x)

-- All kept ids are held, but those whose parent the walk stands at.
abbrev pub HeldBut : Links → List Text → Option Text → Type 0
HeldBut l keep cur =
    (x : Text) → has Text-discrete keep x ≡ true → (is_held l keep x ≡ true) ⊎ (parent_of l x ≡ cur)

add-is_held :
    (l : Links) (keep : List Text) (c x : Text)
    → (is_held l keep x ≡ true) ⊎ (parent_of l x ≡ some c)
    → is_held l (add Text-discrete keep c) x ≡ true
add-is_held l keep c x h = elim (Option-cases (parent_of l x)) [
  | inl e ↦ ground arith
  | inr (p, e) ↦ ground (arith, has-add Text-discrete keep c p)
]

add-HeldBut :
    (l : Links) (keep : List Text) (c : Text)
    → HeldBut l keep (some c)
    → HeldBut l (add Text-discrete keep c) (parent_of l c)
add-HeldBut l keep c h x k =
    ground (arith, has-add Text-discrete keep c x, h x, add-is_held l keep c x)

pub climb_grows :
    (x : Text) (fuel : ℕ) (l : Links) (cur : Option Text) (visited : List Text) (m r : Marked)
    → climb fuel l cur visited m ≡ some r
    → has Text-discrete m.chain_keep x ≡ true
    → has Text-discrete r.chain_keep x ≡ true
unfolding climb
climb_grows x zero l cur visited m r e k = absurd (ground arith)
climb_grows x (suc fuel) l none visited m r e k = ground arith
climb_grows x (suc fuel) l (some c) visited m r e k =
    let kept = record m { chain_keep = add Text-discrete m.chain_keep c } in
    ground (
      arith,
      has-add Text-discrete m.chain_keep c x,
      climb_grows x fuel l (parent_of l c) (add Text-discrete visited c) kept r,
    )

pub climb_keeps_start :
    (fuel : ℕ) (l : Links) (c : Text) (m r : Marked)
    → climb fuel l (some c) [] m ≡ some r
    → has Text-discrete r.chain_keep c ≡ true
unfolding climb
climb_keeps_start zero l c m r e = absurd (ground arith)
climb_keeps_start (suc fuel) l c m r e =
    let kept = record m { chain_keep = add Text-discrete m.chain_keep c } in
    ground (
      arith,
      has-add Text-discrete m.chain_keep c c,
      climb_grows c fuel l (parent_of l c) (add Text-discrete [] c) kept r,
    )

visited_kept :
    (l : Links) (visited : List Text) (m : Marked) (c : Text)
    → ((y : Text) → has Text-discrete visited y ≡ true → has Text-discrete m.chain_keep y ≡ true)
    → (y : Text) → has Text-discrete (add Text-discrete visited c) y ≡ true
    → has Text-discrete (add Text-discrete m.chain_keep c) y ≡ true
visited_kept l visited m c v y s =
    ground (arith, v y, has-add Text-discrete visited c y, has-add Text-discrete m.chain_keep c y)

pub climb-HeldBut :
    (x : Text) (fuel : ℕ) (l : Links) (cur : Option Text) (visited : List Text) (m r : Marked)
    → ((y : Text) → has Text-discrete visited y ≡ true → has Text-discrete m.chain_keep y ≡ true)
    → HeldBut l m.chain_keep cur
    → climb fuel l cur visited m ≡ some r
    → has Text-discrete r.chain_keep x ≡ true
    → is_held l r.chain_keep x ≡ true
unfolding climb
climb-HeldBut x zero l cur visited m r v h e k = absurd (ground arith)
climb-HeldBut x (suc fuel) l none visited m r v h e k = ground (arith, h x)
climb-HeldBut x (suc fuel) l (some c) visited m r v h e k =
    let kept = record m { chain_keep = add Text-discrete m.chain_keep c } in
    let seen = λ (y : Text) (s : has Text-discrete (add Text-discrete visited c) y ≡ true).
      visited_kept l visited m c v y s in
    ground (
      arith,
      h x,
      v c,
      has-add Text-discrete m.chain_keep c x,
      add-is_held l m.chain_keep c x,
      climb-HeldBut x fuel l (parent_of l c) (add Text-discrete visited c) kept r seen
          (add-HeldBut l m.chain_keep c h),
    )
