-- ===== src/Paths/Cells.antt =====
-- Texts of a fixed shape: the anchored patterns of src/util/paths.ts, src/model/VaultMeta.ts and
-- src/services/DeviceCoordinator.ts, matched character by character.
use obsidian_archivist.Common.Text.{Text}
use obsidian_archivist.Common.{
  arith, ◌++◌, ◌&&◌, ◌==◌, zero, false, ◌≡◌, leb, suc, true, ◌||◌, ℕ, Bool, List, [], ◌∷◌,
}

-- `\d`, `[0-9a-f]`, the same in both cases, `[89ab]` in both cases, and a character that stands
-- for itself.
pub data Cell : Type 0 where
  digit lower_hex any_hex variant : Cell
  lit : ℕ → Cell

abbrev pub within : ℕ → ℕ → ℕ → Bool
within low high c = leb low c && leb c high

abbrev pub is_digit : ℕ → Bool
is_digit c = within 48 57 c

abbrev pub is_lower_hex : ℕ → Bool
is_lower_hex c = is_digit c || within 97 102 c

abbrev pub fits : Cell → ℕ → Bool
fits digit c = is_digit c
fits lower_hex c = is_lower_hex c
fits any_hex c = is_lower_hex c || within 65 70 c
fits variant c = within 56 57 c || within 97 98 c || within 65 66 c
fits (lit d) c = c == d

abbrev pub repeat : ℕ → Cell → List Cell
repeat zero x = []
repeat (suc n) x = x ∷ repeat n x

-- `/^...$/.test`.
abbrev pub matches : List Cell → Text → Bool
matches [] [] = true
matches [] (c ∷ t) = false
matches (x ∷ cells) [] = false
matches (x ∷ cells) (c ∷ t) = fits x c && matches cells t

pub matches-append :
    (cells more : List Cell) (t u : Text)
    → matches cells t ≡ true
    → matches more u ≡ true
    → matches (cells ++ more) (t ++ u) ≡ true
matches-append [] more [] u h k = k
matches-append [] more (c ∷ t) u h k = absurd (ground arith)
matches-append (x ∷ cells) more [] u h k = absurd (ground arith)
matches-append (x ∷ cells) more (c ∷ t) u h k = ground (arith, matches-append cells more t u)
