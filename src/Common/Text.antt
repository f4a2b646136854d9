-- ===== src/Common/Text.antt =====
-- Texts as the language compares them: sequences of UTF-16 code units, with `===` by units and
-- `<` lexicographic. Identifiers, paths, hashes and ISO timestamps are texts.
use Prim.Native.Nat.{ℕ}
use mathlib.Core.Path.{◌≡◌, refl}
use mathlib.Core.Bool.{Bool, true, false}
use mathlib.Core.List.{List, [], ◌∷◌}
use Prim.Native.Char.{code}
use Prim.Native.String.{String}
use native.Mathlib.Decide.{ℕ_discrete}
use native.Mathlib.Omega.{arith}
use obsidian_archivist.Common.Tests.{ltb, ◌==◌, if◌then◌else◌, eqb}

abbrev pub Text : Type 0
Text = List ℕ

unfoldable pub Text-discrete : Discrete Text
unfolding ℕ_discrete
Text-discrete = hlevel ℕ_discrete

abbrev pub same : Text → Text → Bool
same = eqb Text-discrete

-- `a < b` on strings.
unfoldable pub less : Text → Text → Bool
less a [] = false
less [] (y ∷ ys) = true
less (x ∷ xs) (y ∷ ys) = let rest = less xs ys in if x == y then rest else ltb x y

abbrev pub codes : String → Text
codes String.[] = []
codes (String.◌∷◌ c s) = code c ∷ codes s

pub less_irrefl : (a : Text) → less a a ≡ false
unfolding less
less_irrefl [] = refl
less_irrefl (x ∷ xs) = ground (arith, less_irrefl xs)

pub less_asymm : (a b : Text) → less a b ≡ true → less b a ≡ false
unfolding less
less_asymm a [] h = ground arith
less_asymm [] (y ∷ ys) h = refl
less_asymm (x ∷ xs) (y ∷ ys) h = ground (arith, less_asymm xs ys)

pub less_trans : (a b c : Text) → less a b ≡ true → less b c ≡ true → less a c ≡ true
unfolding less
less_trans a b [] h k = k
less_trans a [] (z ∷ zs) h k = ground arith
less_trans [] (y ∷ ys) (z ∷ zs) h k = refl
less_trans (x ∷ xs) (y ∷ ys) (z ∷ zs) h k = ground (arith, less_trans xs ys zs)

-- `¬ (a < b)` and `¬ (b < c)` give `¬ (a < c)`: the order is total.
pub not-less_trans : (a b c : Text) → less a b ≡ false → less b c ≡ false → less a c ≡ false
unfolding less
not-less_trans a b [] h k = refl
not-less_trans a [] (z ∷ zs) h k = ground arith
not-less_trans [] (y ∷ ys) (z ∷ zs) h k = ground arith
not-less_trans (x ∷ xs) (y ∷ ys) (z ∷ zs) h k = ground (arith, not-less_trans xs ys zs)

pub not-less_antisymm : (a b : Text) → less a b ≡ false → less b a ≡ false → a ≡ b
unfolding less
not-less_antisymm [] [] h k = refl
not-less_antisymm (x ∷ xs) [] h k = absurd (ground arith)
not-less_antisymm [] (y ∷ ys) h k = absurd (ground arith)
not-less_antisymm (x ∷ xs) (y ∷ ys) h k = ground (arith, not-less_antisymm xs ys)
