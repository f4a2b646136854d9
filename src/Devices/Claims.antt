-- ===== src/Devices/Claims.antt =====
-- How a folder comes to belong to a vault.
use obsidian_archivist.Restore.Walk.{Result-cases}
use obsidian_archivist.Devices.Uuid.{Bytes, generate_uuid_v4, is_uuid_v4}
use obsidian_archivist.Devices.Identity.{meta_file, ensure_local_vault_id, fresh_folder}
use obsidian_archivist.Model.Failure.{ok}
use obsidian_archivist.Restore.Chain.{live}
use obsidian_archivist.Common.Text.{same, Text}
use obsidian_archivist.Devices.Identity.{
  remote_corrupt, is_vault_id, consistent, adopt_remote, VaultMeta, parse_vault_meta,
  load_remote_vault_meta, Identity, claim_remote, adopt_vault_id, check_consistency, IdentityCalls,
}
use obsidian_archivist.Common.{
  inr, Option-cases, inl, refl, true, arith, if◌then◌else◌, ◌⊎◌, ◌≡◌, none, some, [], ◌∷◌,
}

-- No call fails.
abbrev pub Works : IdentityCalls → Type 0
Works calls =
    (calls.load_fails ≡ none)
    × (calls.save_fails ≡ none)
    × (calls.download_fails ≡ none)
    × (calls.upload_fails ≡ none)

same_refl : (t : Text) → same t t ≡ true
same_refl t = ground arith

live-uuid : (t : Text) → is_vault_id t ≡ true → live (some t) ≡ some t
unfolding is_uuid_v4
live-uuid [] h = absurd (ground arith)
live-uuid (c ∷ t) h = refl

-- What a check that finds the folder to belong to another vault has seen.
adopt_remote_inv :
    (calls : IdentityCalls) (v : Identity) (m : VaultMeta)
    → Works calls
    → (check_consistency calls v).1 ≡ ok (adopt_remote m)
    → ((check_consistency calls v).0 ≡ v)
      × (v.remote ≡ meta_file m)
      × (is_vault_id m.vault_id ≡ true)
unfolding check_consistency ensure_local_vault_id load_remote_vault_meta parse_vault_meta
adopt_remote_inv calls v m w h = ground arith

live-generate : (b : Bytes) → live (some (generate_uuid_v4 b)) ≡ some (generate_uuid_v4 b)
unfolding generate_uuid_v4
live-generate b = refl

-- What a check that finds the folder fresh leaves.
fresh_folder_inv :
    (calls : IdentityCalls) (v : Identity) (id : Text)
    → (check_consistency calls v).1 ≡ ok (fresh_folder id)
    → live (check_consistency calls v).0.local_id ≡ some id
unfolding check_consistency ensure_local_vault_id
fresh_folder_inv calls v id h = elim (Result-cases (load_remote_vault_meta calls v)) [
  | inl (r, e) ↦ ground (arith, live-generate calls.random)
  | inr (f, e) ↦ ground arith
]

claimed_check :
    (later : IdentityCalls) (v : Identity) (id : Text) (m : VaultMeta)
    → Works later
    → live v.local_id ≡ some id
    → m.vault_id ≡ id
    → (check_consistency later (record v { remote = meta_file m })).1
      ≡ ok (if is_vault_id id then consistent id m else remote_corrupt id)
unfolding check_consistency load_remote_vault_meta parse_vault_meta
claimed_check later v id m w l e = ground (arith, same_refl id)

ensure_local_vault_id-keeps :
    (calls : IdentityCalls) (v : Identity)
    → live v.local_id ≡ none
    → let (after, result) = ensure_local_vault_id calls v in
      (after.remote ≡ v.remote)
      × ((after.local_id ≡ v.local_id)
          ⊎ ((after.local_id ≡ some (generate_uuid_v4 calls.random))
              × (result ≡ ok (generate_uuid_v4 calls.random))))
unfolding ensure_local_vault_id
ensure_local_vault_id-keeps calls v l = ground arith

abbrev claim_of : IdentityCalls → Text → VaultMeta
claim_of calls id = record { vault_id = id; vault_name = calls.vault_name; claimed_at = calls.now }

claim_remote_lem :
    (calls : IdentityCalls) (v : Identity) (id : Text)
    → calls.upload_fails ≡ none
    → (claim_remote calls id v).0 ≡ record v { remote = meta_file (claim_of calls id) }
unfolding claim_remote
claim_remote_lem calls v id u = ground arith

-- A claim of a fresh folder holds: where the check finds the folder fresh and the claim goes through,
-- the next check finds the two ids consistent if the local id is a version 4 UUID, and finds the
-- remote file corrupt if it is not.
pub check_consistency-claim_remote :
    (calls later : IdentityCalls) (v : Identity) (id : Text)
    → Works calls
    → Works later
    → (check_consistency calls v).1 ≡ ok (fresh_folder id)
    → let claimed = (claim_remote calls id (check_consistency calls v).0).0 in
      (m : VaultMeta) × (m.vault_id ≡ id)
      × ((check_consistency later claimed).1
          ≡ ok (if is_vault_id id then consistent id m else remote_corrupt id))
check_consistency-claim_remote calls later v id w l h =
    let seen = (check_consistency calls v).0 in
    let meta = claim_of calls id in
    (
      meta,
      refl,
      rw (claim_remote_lem calls seen id w.3)
          (claimed_check later seen id meta l (fresh_folder_inv calls v id h) refl),
    )

-- Adoption holds: where the check asks for adoption and the adoption of the remote id goes through,
-- the next check finds the two ids consistent.
pub check_consistency-adopt_vault_id :
    (calls later : IdentityCalls) (v : Identity) (m : VaultMeta)
    → Works calls
    → Works later
    → (check_consistency calls v).1 ≡ ok (adopt_remote m)
    → let (adopted, result) = adopt_vault_id calls m.vault_id (check_consistency calls v).0 in
      (result ≡ ok tt) × ((check_consistency later adopted).1 ≡ ok (consistent m.vault_id m))
unfolding check_consistency adopt_vault_id load_remote_vault_meta parse_vault_meta
check_consistency-adopt_vault_id calls later v m w l h =
    ground (arith, same_refl m.vault_id, live-uuid m.vault_id, adopt_remote_inv calls v m w h)

-- The check never writes the remote file, and it writes a local id only where there was none; what
-- it wrote is then the id of the fresh folder that it reports.
pub check_consistency-keeps :
    (calls : IdentityCalls) (v : Identity)
    → let (after, result) = check_consistency calls v in
      (after.remote ≡ v.remote)
      × ((after.local_id ≡ v.local_id)
          ⊎ ((live v.local_id ≡ none)
              × (after.local_id ≡ some (generate_uuid_v4 calls.random))
              × (result ≡ ok (fresh_folder (generate_uuid_v4 calls.random)))))
unfolding check_consistency
check_consistency-keeps calls v = elim (Result-cases (load_remote_vault_meta calls v)) [
  | inl (r, e) ↦ elim (Option-cases (live v.local_id)) [
    | inl l ↦ ground (arith, ensure_local_vault_id-keeps calls v l)
    | inr (id, l) ↦ ground arith
  ]
  | inr (f, e) ↦ ground arith
]
