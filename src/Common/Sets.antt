-- ===== src/Common/Sets.antt =====
-- The laws of the set and map operations, and of membership in filtered and joined lists.
use Prim.Native.Nat.{suc, ◌+◌, ◌≤◌}
use mathlib.Core.Path.{ap, ◌≡◌, refl}
use mathlib.Core.Bool.{false, true, Bool, ◌&&◌, ◌||◌}
use mathlib.Core.Option.{none, some}
use mathlib.Core.List.{map, List, [], ◌∷◌, ◌++◌}
use Prim.Native.Nat.{◌<◌}
use obsidian_archivist.Common.Tests.{is_some, not}
use native.Mathlib.Omega.{arith}
use obsidian_archivist.Common.Tests.{eqb, if◌then◌else◌}
use obsidian_archivist.Common.Lists.{length, filter, has, add, add_all, get, put, erase}

module _ {ℓ} {A : Type ℓ} (dec : Discrete A) where
  pub has-append : (xs ys : List A) (a : A) → has dec (xs ++ ys) a ≡ (has dec xs a || has dec ys a)
  has-append [] ys a = refl
  has-append (x ∷ xs) ys a = ground (arith, has-append xs ys a)

  pub has-add : (xs : List A) (b a : A) → has dec (add dec xs b) a ≡ (has dec xs a || eqb dec b a)
  has-add xs b a = ground (arith, has-append xs (b ∷ []) a)

  pub has-add_all :
      (xs ys : List A) (a : A) → has dec (add_all dec xs ys) a ≡ (has dec xs a || has dec ys a)
  has-add_all xs [] a = ground arith
  has-add_all xs (y ∷ ys) a = ground (arith, has-add_all (add dec xs y) ys a, has-add xs y a)

  pub has-filter :
      (p : A → Bool) (xs : List A) (a : A) → has dec (filter p xs) a ≡ (p a && has dec xs a)
  has-filter p [] a = ground arith
  has-filter p (x ∷ xs) a = ground (arith, has-filter p xs a)

  pub length-filter-le : (p : A → Bool) (xs : List A) → length (filter p xs) ≤ length xs
  length-filter-le p [] = omega arith
  length-filter-le p (x ∷ xs) = ground (arith, length-filter-le p xs)

module _ {ℓ} {A : Type ℓ} (dec : Discrete A) where
  -- The members of a list that a set does not hold: what a walk has still to visit.
  abbrev pub unseen : List A → List A → List A
  unseen ids seen = filter (λ i. not (has dec seen i)) ids

  unseen-add-le :
      (ids seen : List A) (c : A) → length (unseen ids (add dec seen c)) ≤ length (unseen ids seen)
  unseen-add-le [] seen c = omega arith
  unseen-add-le (i ∷ ids) seen c = ground (arith, unseen-add-le ids seen c, has-add dec seen c i)

  pub unseen-add-lt :
      (ids seen : List A) (c : A)
      → has dec ids c ≡ true
      → has dec seen c ≡ false
      → length (unseen ids (add dec seen c)) < length (unseen ids seen)
  unseen-add-lt [] seen c h k = absurd (ground arith)
  unseen-add-lt (i ∷ ids) seen c h k = ground (
    arith,
    unseen-add-lt ids seen c,
    unseen-add-le ids seen c,
    has-add dec seen c i,
    has-add dec seen c c,
  )

module _ {ℓ κ} {K : Type ℓ} {V : Type κ} (dec : Discrete K) where
  pub get-put :
      (m : List (K × V)) (k j : K) (v : V)
      → get dec (put dec m k v) j ≡ (if eqb dec k j then some v else get dec m j)
  get-put [] k j v = refl
  get-put ((i, w) ∷ m) k j v = ground (arith, get-put m k j v)

  pub get-erase :
      (m : List (K × V)) (k j : K)
      → get dec (erase dec m k) j ≡ (if eqb dec k j then none else get dec m j)
  get-erase [] k j = ground arith
  get-erase ((i, w) ∷ m) k j = ground (arith, get-erase m k j)

  pub has-keys : (m : List (K × V)) (k : K) → has dec (map (λ e. e.0) m) k ≡ is_some (get dec m k)
  has-keys [] k = refl
  has-keys ((i, w) ∷ m) k = ground (arith, has-keys m k)

  pub length-put-le : (m : List (K × V)) (k : K) (v : V) → length (put dec m k v) ≤ length m + 1
  length-put-le [] k v = omega arith
  length-put-le ((i, w) ∷ m) k v = ground (arith, length-put-le m k v)

module _ {ℓ κ} {A : Type ℓ} {B : Type κ} where
  pub length-map : (f : A → B) (xs : List A) → length (map f xs) ≡ length xs
  length-map f [] = refl
  length-map f (x ∷ xs) = ap suc (length-map f xs)

module _ {ℓ} {A : Type ℓ} where
  pub length-append : (xs ys : List A) → length (xs ++ ys) ≡ length xs + length ys
  length-append [] ys = omega arith
  length-append (x ∷ xs) ys = omega (arith, length-append xs ys)
