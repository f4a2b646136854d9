-- ===== src/Paths/SlugLaws.antt =====
-- The slug of a vault name is a vault prefix.
use obsidian_archivist.Paths.Remote.{is_alnum, is_prefix_char, is_vault_prefix}
use obsidian_archivist.Common.Text.{Text}
use obsidian_archivist.Paths.Slug.{or_vault, cut, lengthen, slugify, trim_start, collapse, trim_end}
use obsidian_archivist.Common.{
  inr, inl, ltb, Bool-cases, ◌&&◌, not, zero, suc, refl, ◌==◌, if◌then◌else◌, all, arith, take,
  false, length, ◌≡◌, ◌≤◌, true, ℕ, Bool, [], ◌∷◌,
}

-- Letters, digits and dashes, no two dashes next to each other; the flag says that a dash is before.
unfoldable is_dashed : Bool → Text → Bool
is_dashed after [] = true
is_dashed after (c ∷ t) =
    if c == 45 then not after && is_dashed true t else is_alnum c && is_dashed false t

is_dashed-collapse : (run : Bool) (t : Text) → is_dashed run (collapse run t) ≡ true
unfolding is_dashed collapse
is_dashed-collapse run [] = refl
is_dashed-collapse true (c ∷ t) =
    ground (arith, is_dashed-collapse true t, is_dashed-collapse false t)
is_dashed-collapse false (c ∷ t) =
    ground (arith, is_dashed-collapse true t, is_dashed-collapse false t)

is_dashed-weaken : (t : Text) → is_dashed true t ≡ true → is_dashed false t ≡ true
unfolding is_dashed
is_dashed-weaken [] h = refl
is_dashed-weaken (c ∷ t) h = ground arith

is_dashed-trim_start : (t : Text) → is_dashed false t ≡ true → is_dashed true (trim_start t) ≡ true
unfolding is_dashed trim_start
is_dashed-trim_start [] h = refl
is_dashed-trim_start (c ∷ t) h = ground (arith, is_dashed-trim_start t, is_dashed-weaken t)

is_dashed-trim_end :
    (after : Bool) (t : Text) → is_dashed after t ≡ true → is_dashed after (trim_end t) ≡ true
unfolding is_dashed trim_end
is_dashed-trim_end after [] h = refl
is_dashed-trim_end after (c ∷ t) h =
    ground (arith, is_dashed-trim_end true t, is_dashed-trim_end false t)

is_dashed-take :
    (n : ℕ) (after : Bool) (t : Text) → is_dashed after t ≡ true → is_dashed after (take n t) ≡ true
unfolding is_dashed
is_dashed-take zero after t h = refl
is_dashed-take (suc n) after [] h = refl
is_dashed-take (suc n) after (c ∷ t) h =
    ground (arith, is_dashed-take n true t, is_dashed-take n false t)

all-is_prefix_char :
    (after : Bool) (t : Text) → is_dashed after t ≡ true → all is_prefix_char t ≡ true
unfolding is_dashed
all-is_prefix_char after [] h = refl
all-is_prefix_char after (c ∷ t) h =
    ground (arith, all-is_prefix_char true t, all-is_prefix_char false t)

length-trim_end-le : (t : Text) → length (trim_end t) ≤ length t
unfolding trim_end
length-trim_end-le [] = omega arith
length-trim_end-le (c ∷ t) = ground (arith, length-trim_end-le t)

length-take : (n : ℕ) (t : Text) → n ≤ length t → length (take n t) ≡ n
length-take zero t h = refl
length-take (suc n) [] h = absurd (omega arith)
length-take (suc n) (c ∷ t) h = ground (arith, length-take n t)

-- Of three characters that start with no dash, two remain.
long-trim_end : (t : Text) → is_dashed true t ≡ true → 3 ≤ length t → 2 ≤ length (trim_end t)
unfolding is_dashed trim_end
long-trim_end [] h k = absurd (omega arith)
long-trim_end (a ∷ []) h k = absurd (omega arith)
long-trim_end (a ∷ b ∷ []) h k = absurd (omega arith)
long-trim_end (a ∷ b ∷ c ∷ t) h k = ground arith

is_vault_prefix-of :
    (t : Text) → is_dashed true t ≡ true → 2 ≤ length t → length t ≤ 64 → is_vault_prefix t ≡ true
unfolding is_vault_prefix is_dashed
is_vault_prefix-of [] h k l = absurd (omega arith)
is_vault_prefix-of (c ∷ t) h k l = ground (arith, all-is_prefix_char false t)

is_dashed-lengthen :
    (t : Text)
    → is_dashed true t ≡ true
    → (is_dashed true (lengthen (or_vault t)) ≡ true) × (2 ≤ length (lengthen (or_vault t)))
unfolding is_dashed
is_dashed-lengthen [] h = (refl, omega arith)
is_dashed-lengthen (c ∷ []) h = ground arith
is_dashed-lengthen (c ∷ d ∷ t) h = ground arith

is_vault_prefix-cut :
    (t : Text) → is_dashed true t ≡ true → 2 ≤ length t → is_vault_prefix (cut t) ≡ true
is_vault_prefix-cut t h k = elim (Bool-cases (ltb 64 (length t))) [
  | inl e ↦ rw e (
      let dashed = is_dashed-take 64 true t h in
      let cut_length = length-take 64 t (ground arith) in
      is_vault_prefix-of (trim_end (take 64 t)) (is_dashed-trim_end true (take 64 t) dashed)
        (long-trim_end (take 64 t) dashed (omega (arith, cut_length)))
        (omega (arith, cut_length, length-trim_end-le (take 64 t))))
  | inr e ↦ rw e (is_vault_prefix-of t h k (ground arith))
]

-- The slug of any vault name is a valid vault prefix: 2 to 64 characters, lowercase letters,
-- digits, dashes and underscores, the first a letter or a digit.
pub slugify-is_vault_prefix : (stripped : Text) → is_vault_prefix (slugify stripped) ≡ true
unfolding slugify
slugify-is_vault_prefix stripped =
    let trimmed = trim_end (trim_start (collapse false stripped)) in
    let dashed =
      is_dashed-trim_end true (trim_start (collapse false stripped))
        (is_dashed-trim_start (collapse false stripped) (is_dashed-collapse false stripped)) in
    let (long_dashed, long) = is_dashed-lengthen trimmed dashed in
    is_vault_prefix-cut (lengthen (or_vault trimmed)) long_dashed long
