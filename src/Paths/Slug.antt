-- ===== src/Paths/Slug.antt =====
-- src/util/paths.ts, `slugifyVaultName`. What `toLowerCase`, `normalize` and the removal of
-- diacritics make of the name is the argument.
use obsidian_archivist.Paths.Remote.{is_alnum}
use obsidian_archivist.Common.Text.{codes, Text}
use obsidian_archivist.Common.{
  ◌++◌, take, length, true, ltb, ◌==◌, false, if◌then◌else◌, ℕ, Bool, [], ◌∷◌,
}

-- `.replace(/[^a-z0-9]+/g, '-')`: the flag says that a run has begun.
unfoldable pub collapse : Bool → Text → Text
collapse run [] = []
collapse run (c ∷ t) =
    if is_alnum c
    then c ∷ collapse false t
    else if run
    then collapse true t
    else 45 ∷ collapse true t

-- `.replace(/^-+/, '')` and `.replace(/-+$/, '')`.
unfoldable pub trim_start : Text → Text
trim_start [] = []
trim_start (c ∷ t) = let rest = trim_start t in if c == 45 then rest else c ∷ t

abbrev pub cons_unless_dash : ℕ → Text → Text
cons_unless_dash c [] = if c == 45 then [] else c ∷ []
cons_unless_dash c (d ∷ t) = c ∷ d ∷ t

unfoldable pub trim_end : Text → Text
trim_end [] = []
trim_end (c ∷ t) = cons_unless_dash c (trim_end t)

abbrev pub or_vault : Text → Text
or_vault [] = codes "vault"
or_vault (c ∷ t) = c ∷ t

abbrev pub lengthen : Text → Text
lengthen t = if ltb (length t) 2 then t ++ codes "-vault" else t

abbrev pub cut : Text → Text
cut t = if ltb 64 (length t) then trim_end (take 64 t) else t

unfoldable pub slugify : Text → Text
unfolding collapse trim_start trim_end
slugify stripped = cut (lengthen (or_vault (trim_end (trim_start (collapse false stripped)))))
