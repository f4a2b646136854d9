-- ===== src/Backup/Session.antt =====
-- src/services/BackupService.ts: the state of the service over its runs, and `assertVaultOwnership`.
use obsidian_archivist.Devices.Identity.{fresh_folder}
use obsidian_archivist.Restore.Chain.{live}
use obsidian_archivist.Devices.Identity.{
  remote_corrupt, mismatch, adopt_remote, check_consistency, consistent, claim_remote,
  IdentityCalls, ConsistencyCheck, Identity,
}
use obsidian_archivist.Model.Failure.{
  vault_meta_corrupt, vault_id_mismatch, vault_id_needs_adoption, ok, err, Result,
}
use obsidian_archivist.Common.Text.{Text}
use obsidian_archivist.Backup.Commit.{World, Step}
use obsidian_archivist.Common.{true, false, if◌then◌else◌, Bool, Option, none, some}

-- What `assertVaultOwnership` returns and caches.
pub record Ownership : Type 0 where
  pub is_fresh : Bool
  pub local_id : Option Text

-- The stored state, the identity of the vault, where the service was given one, and the one-shot
-- flags of the session.
pub record Service : Type 0 where
  pub world : World
  pub identity : Option Identity
  pub first_inc_since_load : Bool
  pub dropbox_chain_verified : Bool
  pub vault_ownership_verified : Option Ownership

-- A method returns the state that it leaves, whether or not it throws.
abbrev pub Run {ℓ} : Type ℓ → Type ℓ
Run A = Service → Service × Result A

abbrev pub bind_result {ℓ κ} :
    {A : Type ℓ} {B : Type κ} → Service × Result A → (A → Run B) → Service × Result B
bind_result (s, err f) k = (s, err f)
bind_result (s, ok a) k = k a s

infixl 5 ◌>>=◌
abbrev pub ◌>>=◌ {ℓ κ} : {A : Type ℓ} {B : Type κ} → Run A → (A → Run B) → Run B
◌>>=◌ m k s = bind_result (m s) k

abbrev pub lift {ℓ} : {A : Type ℓ} → Result A → Run A
lift r s = (s, r)

-- A step on the stored state.
abbrev pub on_world : Step → Run (Unit {0})
on_world step s = let (w, r) = step s.world in (record s { world = w }, r)

-- The cases of the consistency check.
unfoldable pub judge : ConsistencyCheck → Run Ownership
judge (consistent id m) s =
    let verified : Ownership = record { is_fresh = false; local_id = some id } in
    (record s { vault_ownership_verified = some verified }, ok verified)
judge (fresh_folder id) s = (s, ok (record { is_fresh = true; local_id = some id }))
judge (adopt_remote m) s = (s, err vault_id_needs_adoption)
judge (mismatch id m) s = (s, err vault_id_mismatch)
judge (remote_corrupt id) s = (s, err vault_meta_corrupt)

unfoldable pub after_check :
    Service → Identity × Result ConsistencyCheck → Service × Result Ownership
unfolding judge
after_check s (v, err f) = (record s { identity = some v }, err f)
after_check s (v, ok check) = judge check (record s { identity = some v })

check_identity : IdentityCalls → Option Ownership → Identity → Run Ownership
unfolding after_check
check_identity calls (some verified) v s = (s, ok verified)
check_identity calls none v s = after_check s (check_consistency calls v)

assert_with : IdentityCalls → Option Identity → Run Ownership
unfolding check_identity
assert_with calls none s = (s, ok (record { is_fresh = false; local_id = none }))
assert_with calls (some v) s = check_identity calls s.vault_ownership_verified v s

-- `assertVaultOwnership`.
unfoldable pub assert_vault_ownership : IdentityCalls → Run Ownership
unfolding assert_with
assert_vault_ownership calls s = assert_with calls s.identity s

-- `markVaultOwnershipClaimed`, after the claim: a claim that fails is swallowed.
abbrev pub claimed : Text → Service → Identity × Result (Unit {0}) → Service
claimed id s (v, err f) = record s { identity = some v }
claimed id s (v, ok u) = record s {
  identity = some v;
  vault_ownership_verified = some (record { is_fresh = false; local_id = some id });
}

unfoldable pub claim_with : IdentityCalls → Option Text → Option Identity → Service → Service
claim_with calls none v s = s
claim_with calls (some id) none s = s
claim_with calls (some id) (some v) s = claimed id s (claim_remote calls id v)

-- The claim of a fresh folder at the end of a full backup. The empty text counts as no id.
unfoldable pub claim_if_fresh : IdentityCalls → Ownership → Run (Unit {0})
unfolding claim_with
claim_if_fresh calls o s =
    (if o.is_fresh then claim_with calls (live o.local_id) s.identity s else s, ok tt)
