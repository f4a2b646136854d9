-- ===== src/Backup/RunKeeps.antt =====
-- The rule for a sequence of calls of the service: the stored state stays consistent.
use obsidian_archivist.Backup.Commit.{World}
use obsidian_archivist.Restore.Chain.{live}
use obsidian_archivist.Backup.Consistent.{IsConsistent}
use obsidian_archivist.Model.Failure.{err, ok, Result}
use obsidian_archivist.Devices.Identity.{
  check_consistency, ConsistencyCheck, Identity, IdentityCalls,
}
use obsidian_archivist.Common.Text.{Text}
use obsidian_archivist.Backup.Uploads.{Octets}
use obsidian_archivist.Backup.Session.{
  after_check, judge, claim_with, bind_result, lift, Run, Service, Ownership,
  assert_vault_ownership, claim_if_fresh, ◌>>=◌,
}
use obsidian_archivist.Common.{inr, inl, Option-cases, refl, arith, ◌≡◌, Option, none, some}

-- From a state of the first kind, the call leaves a consistent stored state, whether or not it fails;
-- where it returns a value, a state of the second kind for that value.
abbrev pub KeepsRun {ℓ} :
    {A : Type ℓ} → (Octets → Text) → (Service → Type 0) → Run A → (A → Service → Type 0) → Type ℓ
KeepsRun {A = A} hasher P m Q =
    (s : Service)
    → P s
    → IsConsistent hasher (m s).0.world × ((a : A) → (m s).1 ≡ ok a → Q a (m s).0)

bind_result-Keeps {ℓ κ} :
    {A : Type ℓ} {B : Type κ} (hasher : Octets → Text) (Q : A → Service → Type 0)
    (R : B → Service → Type 0) (k : A → Run B) (r : Service × Result A)
    → IsConsistent hasher r.0.world × ((a : A) → r.1 ≡ ok a → Q a r.0)
    → ((a : A) → KeepsRun hasher (Q a) (k a) R)
    → IsConsistent hasher (bind_result r k).0.world
      × ((b : B) → (bind_result r k).1 ≡ ok b → R b (bind_result r k).0)
bind_result-Keeps hasher Q R k (s, err f) h next = (h.0, λ b e. absurd (ground arith))
bind_result-Keeps hasher Q R k (s, ok a) h next = next a s (h.1 a refl)

pub >>=-KeepsRun {ℓ κ} :
    {A : Type ℓ} {B : Type κ} (hasher : Octets → Text) (P : Service → Type 0)
    (Q : A → Service → Type 0) (R : B → Service → Type 0) (m : Run A) (k : A → Run B)
    → KeepsRun hasher P m Q
    → ((a : A) → KeepsRun hasher (Q a) (k a) R)
    → KeepsRun hasher P (m >>= k) R
>>=-KeepsRun hasher P Q R m k h next s p = bind_result-Keeps hasher Q R k (m s) (h s p) next

-- The stored state is consistent.
abbrev pub Sound : (Octets → Text) → Service → Type 0
Sound hasher s = IsConsistent hasher s.world

-- A call that leaves the stored state as it is.
pub quiet-KeepsRun {ℓ} :
    {A : Type ℓ} (hasher : Octets → Text) (m : Run A)
    → ((s : Service) → (m s).0.world ≡ s.world)
    → KeepsRun hasher (Sound hasher) m (λ a s. Sound hasher s)
quiet-KeepsRun hasher m quiet s c = (rw (quiet s) c, λ a e. rw (quiet s) c)

pub lift-KeepsRun :
    {A : Type 0} (hasher : Octets → Text) (r : Result A)
    → KeepsRun hasher (Sound hasher) (lift r) (λ a s. Sound hasher s × (r ≡ ok a))
lift-KeepsRun hasher r s c = (c, λ a e. (c, e))

judge-world : (c : ConsistencyCheck) (s : Service) → (judge c s).0.world ≡ s.world
unfolding judge
judge-world c s = ground arith

after_check-world :
    (s : Service) (r : Identity × Result ConsistencyCheck) → (after_check s r).0.world ≡ s.world
unfolding after_check
after_check-world s (v, err f) = refl
after_check-world s (v, ok c) = judge-world c (record s { identity = some v })

pub assert_vault_ownership-world :
    (calls : IdentityCalls) (s : Service) → (assert_vault_ownership calls s).0.world ≡ s.world
unfolding assert_vault_ownership
assert_vault_ownership-world calls s = elim (Option-cases s.identity) [
  | inl e ↦ ground arith
  | inr (v, e) ↦ elim (Option-cases s.vault_ownership_verified) [
    | inl f ↦ ground (arith, after_check-world s (check_consistency calls v))
    | inr (o, f) ↦ ground arith
  ]
]

claim_with-world :
    (calls : IdentityCalls) (id : Option Text) (v : Option Identity) (s : Service)
    → (claim_with calls id v s).world ≡ s.world
unfolding claim_with
claim_with-world calls none v s = refl
claim_with-world calls (some id) none s = refl
claim_with-world calls (some id) (some v) s = ground arith

pub claim_if_fresh-world :
    (calls : IdentityCalls) (o : Ownership) (s : Service)
    → (claim_if_fresh calls o s).0.world ≡ s.world
unfolding claim_if_fresh
claim_if_fresh-world calls o s =
    ground (arith, claim_with-world calls (live o.local_id) s.identity s)

-- A value that may have failed to come, before a call.
pub lift-then-KeepsRun {ℓ κ} :
    {A : Type ℓ} {B : Type κ} (hasher : Octets → Text) (P : Service → Type 0)
    (R : B → Service → Type 0) (r : Result A) (k : A → Run B)
    → ((s : Service) → P s → Sound hasher s)
    → ((a : A) → r ≡ ok a → KeepsRun hasher P (k a) R)
    → KeepsRun hasher P (lift r >>= k) R
lift-then-KeepsRun hasher P R (err f) k sound next s p = (sound s p, λ b e. absurd (ground arith))
lift-then-KeepsRun hasher P R (ok a) k sound next s p = next a refl s p

-- The remote files, the local index and the blobs are those of another state.
abbrev pub Untouched : World → World → Type 0
Untouched before w =
    (w.blobs ≡ before.blobs)
    × (w.manifests ≡ before.manifests)
    × (w.index_file ≡ before.index_file)
    × (w.head_file ≡ before.head_file)
    × (w.local_index ≡ before.local_index)

abbrev pub Clean : (Octets → Text) → World → Service → Type 0
Clean hasher before s = Sound hasher s × Untouched before s.world

pub quiet-Clean {ℓ} :
    {A : Type ℓ} (hasher : Octets → Text) (before : World) (m : Run A)
    → ((s : Service) → (m s).0.world ≡ s.world)
    → KeepsRun hasher (Clean hasher before) m (λ a s. Clean hasher before s)
quiet-Clean hasher before m quiet s c = (rw (quiet s) c.0, λ a e. rw (quiet s) c)
