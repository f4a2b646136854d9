-- ===== src/Common/Lists.antt =====
-- Lists measured by native numbers, a Boolean filter, and the Set and Map of the language: a set
-- as the list of its members in insertion order, a map as the list of its entries.
use Prim.Native.Nat.{ℕ, zero, suc}
use mathlib.Core.Bool.{Bool, true, false, ◌&&◌, ◌||◌}
use mathlib.Core.Option.{Option, none, some}
use mathlib.Core.List.{List, [], ◌∷◌, ◌++◌}
use obsidian_archivist.Common.Tests.{eqb, if◌then◌else◌}

module _ {ℓ} {A : Type ℓ} where
  abbrev pub length : List A → ℕ
  length [] = 0
  length (x ∷ xs) = suc (length xs)

  abbrev pub take : ℕ → List A → List A
  take zero xs = []
  take (suc n) [] = []
  take (suc n) (x ∷ xs) = x ∷ take n xs

  abbrev pub any : (A → Bool) → List A → Bool
  any p [] = false
  any p (x ∷ xs) = p x || any p xs

  abbrev pub all : (A → Bool) → List A → Bool
  all p [] = true
  all p (x ∷ xs) = p x && all p xs

  abbrev pub filter : (A → Bool) → List A → List A
  filter p [] = []
  filter p (x ∷ xs) = let rest = filter p xs in if p x then x ∷ rest else rest

-- `Set.has`, `Set.add` and the union that a loop of `add` makes.
module _ {ℓ} {A : Type ℓ} (dec : Discrete A) where
  abbrev pub has : List A → A → Bool
  has [] a = false
  has (x ∷ xs) a = eqb dec x a || has xs a

  abbrev pub add : List A → A → List A
  add xs a = if has xs a then xs else xs ++ a ∷ []

  abbrev pub add_all : List A → List A → List A
  add_all xs [] = xs
  add_all xs (y ∷ ys) = add_all (add xs y) ys

-- `Map.get`, `Map.set` (which keeps the place of an old key) and `delete`.
module _ {ℓ κ} {K : Type ℓ} {V : Type κ} (dec : Discrete K) where
  abbrev pub get : List (K × V) → K → Option V
  get [] k = none
  get ((j, v) ∷ m) k = if eqb dec j k then some v else get m k

  abbrev pub put : List (K × V) → K → V → List (K × V)
  put [] k v = (k, v) ∷ []
  put ((j, w) ∷ m) k v = if eqb dec j k then (j, v) ∷ m else (j, w) ∷ put m k v

  abbrev pub erase : List (K × V) → K → List (K × V)
  erase [] k = []
  erase ((j, w) ∷ m) k = let rest = erase m k in if eqb dec j k then rest else (j, w) ∷ rest
