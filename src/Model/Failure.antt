-- ===== src/Model/Failure.antt =====
-- src/model/Errors.ts: what the services throw, by class and code, and results that may fail.

use obsidian_archivist.Common.{◌≡◌, refl}

pub data Failure : Type 0 where
  path_not_found invalid_path path_not_in_snapshot manifest_parse_failed : Failure
  chain_broken : Failure
  snapshot_index_invalid content_hash_mismatch : Failure
  config_invalid : Failure
  device_conflict : Failure
  vault_id_invalid vault_id_needs_adoption vault_id_mismatch vault_meta_corrupt : Failure
  unknown : Failure

pub data Result {ℓ} (A : Type ℓ) : Type ℓ where
  ok : A → Result A
  err : Failure → Result A

infixl 5 ◌>>=◌
abbrev pub ◌>>=◌ {ℓ κ} : {A : Type ℓ} {B : Type κ} → Result A → (A → Result B) → Result B
ok a >>= f = f a
err e >>= f = err e

-- What holds of the value of a call that did not fail.
abbrev pub IfOk {ℓ} : {A : Type ℓ} → (A → Type 0) → Result A → Type 0
IfOk Q (ok a) = Q a
IfOk Q (err e) = Unit {0}

pub IfOk-of {ℓ} :
    {A : Type ℓ} (Q : A → Type 0) (r : Result A) → ((a : A) → r ≡ ok a → Q a) → IfOk Q r
IfOk-of Q (ok a) h = h a refl
IfOk-of Q (err e) h = tt
