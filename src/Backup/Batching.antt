-- ===== src/Backup/Batching.antt =====
-- The batches of a backup, and how many calls run at a time.
use native.Mathlib.Nat.{le-div_iff_mul-le}
use obsidian_archivist.Backup.Uploads.{
  negative, not_finite, fraction, drop, Number, resolve_parallelism, batches, batches_from,
}
use obsidian_archivist.Common.{
  ltb, Bool-cases, inr, inl, refl, zero, ap, suc, arith, ◌≡◌, length, take, ◌≤◌, ℕ, ◌++◌, Option,
  none, some, List, [], ◌∷◌,
}

abbrev pub concat {ℓ} : {A : Type ℓ} → List (List A) → List A
concat [] = []
concat (xs ∷ xss) = xs ++ concat xss

take-drop {ℓ} : {A : Type ℓ} (n : ℕ) (xs : List A) → take n xs ++ drop n xs ≡ xs
take-drop zero xs = refl
take-drop (suc n) [] = refl
take-drop (suc n) (x ∷ xs) = ap (λ ys. x ∷ ys) (take-drop n xs)

length-drop-le {ℓ} : {A : Type ℓ} (n : ℕ) (xs : List A) → length (drop n xs) ≤ length xs
length-drop-le zero xs = omega arith
length-drop-le (suc n) [] = omega arith
length-drop-le (suc n) (x ∷ xs) = omega (arith, length-drop-le n xs)

concat-batches_from {ℓ} :
    {A : Type ℓ} (fuel size : ℕ) (xs : List A)
    → length xs ≤ fuel
    → concat (batches_from fuel (suc size) xs) ≡ xs
unfolding batches_from
concat-batches_from zero size [] h = refl
concat-batches_from zero size (x ∷ xs) h = absurd (omega arith)
concat-batches_from (suc fuel) size [] h = refl
concat-batches_from (suc fuel) size (x ∷ xs) h =
    rw (concat-batches_from fuel size (drop size xs) (omega (arith, length-drop-le size xs)))
      (ap (λ ys. x ∷ ys) (take-drop size xs))

-- The batches of a positive size are the list cut up, in order: as many rounds as the list is long
-- are enough for the loop.
pub concat-batches {ℓ} :
    {A : Type ℓ} (size : ℕ) (xs : List A) → 1 ≤ size → concat (batches size xs) ≡ xs
unfolding batches
concat-batches zero xs h = absurd (omega arith)
concat-batches (suc size) xs h = concat-batches_from (length xs) size xs (omega arith)

pub resolve_parallelism-positive : (raw : Option Number) → 1 ≤ resolve_parallelism raw
unfolding resolve_parallelism
resolve_parallelism-positive none = omega arith
resolve_parallelism-positive (some not_finite) = omega arith
resolve_parallelism-positive (some negative) = omega arith
resolve_parallelism-positive (some (fraction n d)) = elim (Bool-cases (ltb n (suc d))) [
  | inl e ↦ rw e (omega arith)
  | inr e ↦ rw e ((le-div_iff_mul-le (omega arith)).1 (ground arith))
]
