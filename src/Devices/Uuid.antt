-- ===== src/Devices/Uuid.antt =====
-- `generateUuidV4` and `UUID_V4_REGEX` of src/services/DeviceCoordinator.ts, src/services/
-- VaultIdentity.ts and src/model/VaultMeta.ts. The random bytes are an argument.
use obsidian_archivist.Common.Text.{Text}
use obsidian_archivist.Paths.Cells.{
  matches-append, variant, fits, lit, any_hex, repeat, matches, Cell,
}
use obsidian_archivist.Common.{
  refl, arith, ◌+◌, true, ◌++◌, ltb, if◌then◌else◌, ◌%◌, ◌≡◌, ◌<◌, ◌/◌, all, ℕ, Bool, List, [], ◌∷◌,
}

-- The pattern from its fifth, fourth, third and second group on.
abbrev node_cells : List Cell
node_cells = lit 45 ∷ repeat 12 any_hex

abbrev variant_cells : List Cell
variant_cells = lit 45 ∷ variant ∷ repeat 3 any_hex

abbrev version_cells : List Cell
version_cells = lit 45 ∷ lit 52 ∷ repeat 3 any_hex

abbrev middle_cells : List Cell
middle_cells = lit 45 ∷ repeat 4 any_hex

abbrev pub uuid_v4 : List Cell
uuid_v4 = repeat 8 any_hex ++ (middle_cells ++ (version_cells ++ (variant_cells ++ node_cells)))

-- `UUID_V4_REGEX.test`.
unfoldable pub is_uuid_v4 : Text → Bool
is_uuid_v4 t = matches uuid_v4 t

-- One digit of `toString(16)`.
abbrev pub hex_digit : ℕ → ℕ
hex_digit n = if ltb n 10 then 48 + n else 87 + n

-- `b.toString(16).padStart(2, '0')`, joined.
unfoldable pub hex : List ℕ → Text
hex [] = []
hex (b ∷ bs) = hex_digit (b / 16) ∷ hex_digit (b % 16) ∷ hex bs

-- `(b & 0x0f) | 0x40` and `(b & 0x3f) | 0x80`.
abbrev pub version_byte : ℕ → ℕ
version_byte b = b % 16 + 64

abbrev pub variant_byte : ℕ → ℕ
variant_byte b = b % 64 + 128

-- The sixteen bytes in the groups of the text.
pub record Bytes : Type 0 where
  pub b0 : ℕ
  pub b1 : ℕ
  pub b2 : ℕ
  pub b3 : ℕ
  pub b4 : ℕ
  pub b5 : ℕ
  pub b6 : ℕ
  pub b7 : ℕ
  pub b8 : ℕ
  pub b9 : ℕ
  pub b10 : ℕ
  pub b11 : ℕ
  pub b12 : ℕ
  pub b13 : ℕ
  pub b14 : ℕ
  pub b15 : ℕ

abbrev start_text : Bytes → Text
start_text b = hex (b.b0 ∷ b.b1 ∷ b.b2 ∷ b.b3 ∷ [])

abbrev middle_text : Bytes → Text
middle_text b = 45 ∷ hex (b.b4 ∷ b.b5 ∷ [])

abbrev version_text : Bytes → Text
version_text b = 45 ∷ hex (version_byte b.b6 ∷ b.b7 ∷ [])

abbrev variant_text : Bytes → Text
variant_text b = 45 ∷ hex (variant_byte b.b8 ∷ b.b9 ∷ [])

abbrev node_text : Bytes → Text
node_text b = 45 ∷ hex (b.b10 ∷ b.b11 ∷ b.b12 ∷ b.b13 ∷ b.b14 ∷ b.b15 ∷ [])

unfoldable pub generate_uuid_v4 : Bytes → Text
unfolding hex
generate_uuid_v4 b =
    start_text b ++ (middle_text b ++ (version_text b ++ (variant_text b ++ node_text b)))

fits-hex_digit : (n : ℕ) → n < 16 → fits any_hex (hex_digit n) ≡ true
fits-hex_digit n h = ground arith

abbrev hex_cells : List ℕ → List Cell
hex_cells [] = []
hex_cells (b ∷ bs) = any_hex ∷ any_hex ∷ hex_cells bs

abbrev pub is_byte : ℕ → Bool
is_byte b = ltb b 256

matches-hex : (bs : List ℕ) → all is_byte bs ≡ true → matches (hex_cells bs) (hex bs) ≡ true
unfolding hex
matches-hex [] h = refl
matches-hex (b ∷ bs) h =
    ground (arith, matches-hex bs, fits-hex_digit (b / 16), fits-hex_digit (b % 16))

abbrev pub bytes_of : Bytes → List ℕ
bytes_of b =
    b.b0 ∷ b.b1 ∷ b.b2 ∷ b.b3 ∷ b.b4 ∷ b.b5 ∷ b.b6 ∷ b.b7 ∷ b.b8 ∷ b.b9 ∷ b.b10 ∷ b.b11 ∷ b.b12
    ∷ b.b13 ∷ b.b14 ∷ b.b15 ∷ []

version-fits :
    (b c : ℕ)
    → is_byte c ≡ true
    → matches (lit 52 ∷ repeat 3 any_hex) (hex (version_byte b ∷ c ∷ [])) ≡ true
unfolding hex
version-fits b c h =
    ground (
      arith,
      fits-hex_digit (version_byte b % 16),
      fits-hex_digit (c / 16),
      fits-hex_digit (c % 16),
    )

variant-fits :
    (b c : ℕ)
    → is_byte c ≡ true
    → matches (variant ∷ repeat 3 any_hex) (hex (variant_byte b ∷ c ∷ [])) ≡ true
unfolding hex
variant-fits b c h =
    ground (
      arith,
      fits-hex_digit (variant_byte b % 16),
      fits-hex_digit (c / 16),
      fits-hex_digit (c % 16),
    )

-- Whatever the random bytes are, the generated id is a version 4 UUID: it passes the pattern by
-- which HEAD and the vault's identity are validated.
pub generate_uuid_v4-is_uuid_v4 :
    (b : Bytes) → all is_byte (bytes_of b) ≡ true → is_uuid_v4 (generate_uuid_v4 b) ≡ true
unfolding generate_uuid_v4 is_uuid_v4
generate_uuid_v4-is_uuid_v4 b h =
    let node = matches-hex (b.b10 ∷ b.b11 ∷ b.b12 ∷ b.b13 ∷ b.b14 ∷ b.b15 ∷ []) (ground arith) in
    let from_variant =
      matches-append variant_cells node_cells (variant_text b) (node_text b)
        (variant-fits b.b8 b.b9 (ground arith)) node in
    let from_version =
      matches-append version_cells (variant_cells ++ node_cells) (version_text b)
        (variant_text b ++ node_text b) (version-fits b.b6 b.b7 (ground arith)) from_variant in
    let from_middle =
      matches-append middle_cells (version_cells ++ (variant_cells ++ node_cells)) (middle_text b)
        (version_text b ++ (variant_text b ++ node_text b))
        (matches-hex (b.b4 ∷ b.b5 ∷ []) (ground arith)) from_version in
    matches-append (repeat 8 any_hex)
      (middle_cells ++ (version_cells ++ (variant_cells ++ node_cells))) (start_text b)
      (middle_text b ++ (version_text b ++ (variant_text b ++ node_text b)))
      (matches-hex (b.b0 ∷ b.b1 ∷ b.b2 ∷ b.b3 ∷ []) (ground arith)) from_middle
