-- ===== src/Paths/Remote.antt =====
-- src/util/paths.ts: the vault prefix and the builders of remote paths.
use obsidian_archivist.Paths.Stamps.{is_snapshot_id}
use obsidian_archivist.Model.Failure.{invalid_path, ◌>>=◌, ok, err, Result}
use obsidian_archivist.Paths.Cells.{lower_hex, repeat, is_digit, matches, within}
use obsidian_archivist.Common.Text.{codes, Text}
use obsidian_archivist.Common.{
  length, take, all, ◌++◌, ◌==◌, ◌&&◌, if◌then◌else◌, false, ◌||◌, ℕ, Bool, [], ◌∷◌,
}

-- `[a-z0-9]` and `[a-z0-9_-]`.
abbrev pub is_alnum : ℕ → Bool
is_alnum c = within 97 122 c || is_digit c

abbrev pub is_prefix_char : ℕ → Bool
is_prefix_char c = is_alnum c || c == 95 || c == 45

-- `VAULT_PREFIX_REGEX.test`.
unfoldable pub is_vault_prefix : Text → Bool
is_vault_prefix [] = false
is_vault_prefix (c ∷ t) = is_alnum c && all is_prefix_char t && within 1 63 (length t)

unfoldable pub validate_vault_prefix : Text → Result Text
unfolding is_vault_prefix
validate_vault_prefix prefix = if is_vault_prefix prefix then ok prefix else err invalid_path

abbrev pub strip_slashes : Text → Text
strip_slashes [] = []
strip_slashes (c ∷ t) = let rest = strip_slashes t in if c == 47 then rest else c ∷ t

abbrev pub includes_dots : Text → Bool
includes_dots [] = false
includes_dots (c ∷ []) = false
includes_dots (c ∷ d ∷ t) = (c == 46 && d == 46) || includes_dots (d ∷ t)

-- `assertInAppFolder`.
unfoldable pub assert_in_app_folder : Text → Result (Unit {0})
assert_in_app_folder [] = err invalid_path
assert_in_app_folder (c ∷ t) =
    if includes_dots (strip_slashes (c ∷ t)) then err invalid_path else ok tt

-- `vaultRoot`, and the paths under it.
unfoldable pub under_root : Text → Text → Result Text
unfolding validate_vault_prefix
under_root prefix name = validate_vault_prefix prefix >>= λ root. ok (root ++ name)

unfoldable pub head_path : Text → Result Text
unfolding under_root
head_path prefix = under_root prefix (codes "/HEAD.json")

unfoldable pub snapshot_index_path : Text → Result Text
unfolding under_root
snapshot_index_path prefix = under_root prefix (codes "/snapshot_index.json")

unfoldable pub vault_meta_path : Text → Result Text
unfolding under_root
vault_meta_path prefix = under_root prefix (codes "/vault_meta.json")

unfoldable pub gc_lock_path : Text → Result Text
unfolding under_root
gc_lock_path prefix = under_root prefix (codes "/gc_lock")

unfoldable pub snapshots_dir : Text → Result Text
unfolding under_root
snapshots_dir prefix = under_root prefix (codes "/snapshots")

-- `snapshotPath`, of the prefix and the id of a manifest.
unfoldable pub snapshot_path : Text → Text → Result Text
unfolding snapshots_dir
snapshot_path prefix id =
    if is_snapshot_id id
    then snapshots_dir prefix >>= (λ dir. ok (dir ++ 47 ∷ (id ++ codes ".json")))
    else err invalid_path

unfoldable pub content_folder_path : Text → Result Text
unfolding under_root
content_folder_path prefix = under_root prefix (codes "/content")

abbrev pub is_content_hash : Text → Bool
is_content_hash t = matches (repeat 64 lower_hex) t

unfoldable pub content_path : Text → Text → Result Text
unfolding under_root
content_path prefix sha =
    if is_content_hash sha
    then under_root prefix (codes "/content/" ++ (take 2 sha ++ 47 ∷ sha))
    else err invalid_path
