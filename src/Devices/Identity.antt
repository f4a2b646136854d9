-- ===== src/Devices/Identity.antt =====
-- src/services/VaultIdentity.ts and src/model/VaultMeta.ts: the id of the vault, in the plugin's
-- data and in `vault_meta.json` of the remote folder.
use obsidian_archivist.Devices.Coordinator.{is_missing}
use obsidian_archivist.Restore.Chain.{live}
use obsidian_archivist.Devices.Uuid.{generate_uuid_v4, is_uuid_v4, Bytes}
use obsidian_archivist.Common.Text.{same, Text}
use obsidian_archivist.Model.Failure.{
  vault_meta_corrupt, vault_id_mismatch, ◌>>=◌, vault_id_needs_adoption, config_invalid,
  vault_id_invalid, err, ok, Result, Failure,
}
use obsidian_archivist.Common.{false, if◌then◌else◌, true, Bool, Option, none, some, []}

pub record VaultMeta : Type 0 where
  pub vault_id : Text
  pub vault_name : Text
  pub claimed_at : Text

-- The remote file: absent, no object with the fields of a vault meta, or one with any texts.
pub data MetaFile : Type 0 where
  no_meta not_a_meta : MetaFile
  meta_file : VaultMeta → MetaFile

-- `isVaultId` and `parseVaultMeta`.
abbrev pub is_vault_id : Text → Bool
is_vault_id t = is_uuid_v4 t

unfoldable pub parse_vault_meta : VaultMeta → Result VaultMeta
parse_vault_meta m = if is_vault_id m.vault_id then ok m else err config_invalid

-- The id in `data.json`, and the remote file.
pub record Identity : Type 0 where
  pub local_id : Option Text
  pub remote : MetaFile

-- How the calls fail, if they do, the random bytes and the time.
pub record IdentityCalls : Type 0 where
  pub load_fails : Option Failure
  pub save_fails : Option Failure
  pub download_fails : Option Failure
  pub upload_fails : Option Failure
  pub random : Bytes
  pub now : Text
  pub vault_name : Text

-- `loadVaultId` of src/infra/PluginStore.ts: the empty text counts as none.
abbrev pub load_vault_id : IdentityCalls → Identity → Result (Option Text)
load_vault_id calls v = elim calls.load_fails [ some f ↦ err f | none ↦ ok (live v.local_id) ]

abbrev pub save_vault_id : IdentityCalls → Text → Identity → Identity × Result (Unit {0})
save_vault_id calls id v = elim calls.save_fails [
  | some f ↦ (v, err f)
  | none ↦ (record v { local_id = some id }, ok tt)
]

abbrev pub with_id : Text → Identity × Result (Unit {0}) → Identity × Result Text
with_id id (v, err f) = (v, err f)
with_id id (v, ok u) = (v, ok id)

unfoldable pub ensure_local_vault_id : IdentityCalls → Identity → Identity × Result Text
ensure_local_vault_id calls v = elim (load_vault_id calls v) [
  | err f ↦ (v, err f)
  | ok (some id) ↦ (v, ok id)
  | ok none ↦
      let fresh = generate_uuid_v4 calls.random in with_id fresh (save_vault_id calls fresh v)
]

unfoldable pub adopt_vault_id : IdentityCalls → Text → Identity → Identity × Result (Unit {0})
adopt_vault_id calls id v =
    if is_vault_id id then save_vault_id calls id v else (v, err vault_id_invalid)

read_meta : MetaFile → Result (Option VaultMeta)
read_meta no_meta = ok none
read_meta not_a_meta = err config_invalid
read_meta (meta_file m) = parse_vault_meta m >>= λ (p : VaultMeta). ok (some p)

-- `loadRemoteVaultMeta`.
unfoldable pub load_remote_vault_meta : IdentityCalls → Identity → Result (Option VaultMeta)
unfolding read_meta
load_remote_vault_meta calls v = elim calls.download_fails [
  | some f ↦ if is_missing f then ok none else err f
  | none ↦ read_meta v.remote
]

unfoldable pub claim_remote : IdentityCalls → Text → Identity → Identity × Result (Unit {0})
claim_remote calls id v = elim calls.upload_fails [
  | some f ↦ (v, err f)
  | none ↦ (
    record v {
      remote =
          meta_file
            (record { vault_id = id; vault_name = calls.vault_name; claimed_at = calls.now });
    },
    ok tt,
  )
]

pub data ConsistencyCheck : Type 0 where
  consistent mismatch : Text → VaultMeta → ConsistencyCheck
  fresh_folder : Text → ConsistencyCheck
  adopt_remote : VaultMeta → ConsistencyCheck
  remote_corrupt : Text → ConsistencyCheck

-- `err instanceof ConfigError`.
abbrev pub is_config_error : Failure → Bool
is_config_error config_invalid = true
is_config_error vault_id_invalid = true
is_config_error vault_id_needs_adoption = true
is_config_error vault_id_mismatch = true
is_config_error vault_meta_corrupt = true
is_config_error _ = false

abbrev pub or_empty : Option Text → Text
or_empty none = []
or_empty (some t) = t

abbrev pub as_fresh : Identity × Result Text → Identity × Result ConsistencyCheck
as_fresh (v, err f) = (v, err f)
as_fresh (v, ok id) = (v, ok (fresh_folder id))

-- The comparison of the two ids, the remote one being there or not.
compare_ids :
    IdentityCalls → Option Text → Option VaultMeta → Identity → Identity × Result ConsistencyCheck
compare_ids calls none none v = as_fresh (ensure_local_vault_id calls v)
compare_ids calls (some id) none v = (v, ok (fresh_folder id))
compare_ids calls none (some m) v = (v, ok (adopt_remote m))
compare_ids calls (some id) (some m) v =
    if same id m.vault_id then (v, ok (consistent id m)) else (v, ok (mismatch id m))

check_with : IdentityCalls → Option Text → Identity → Identity × Result ConsistencyCheck
unfolding compare_ids
check_with calls local v = elim (load_remote_vault_meta calls v) [
  | err f ↦ if is_config_error f then (v, ok (remote_corrupt (or_empty local))) else (v, err f)
  | ok remote ↦ compare_ids calls local remote v
]

unfoldable pub check_consistency : IdentityCalls → Identity → Identity × Result ConsistencyCheck
unfolding check_with
check_consistency calls v = elim (load_vault_id calls v) [
  | err f ↦ (v, err f)
  | ok local ↦ check_with calls local v
]
