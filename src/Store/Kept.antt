-- ===== src/Store/Kept.antt =====
-- What an append, with or without a rebuild, leaves of the rows of the snapshot index.
use obsidian_archivist.Restore.Walk.{Result-cases}
use obsidian_archivist.Model.Failure.{Failure, err, ok, Result}
use obsidian_archivist.Store.Heal.{
  is_corruption, Attempts, after_rebuild, append_with_self_heal, heal, append_unless_present, Hook,
}
use obsidian_archivist.Common.Text.{same, Text}
use obsidian_archivist.Store.Index.{corrupt, valid, rows, Net, IndexFile, read, append}
use obsidian_archivist.Model.Manifest.{SnapshotIndexEntry}
use obsidian_archivist.Common.{
  inr, inl, Bool-cases, arith, ◌||◌, true, ◌&&◌, ◌≡◌, any, ◌++◌, all, Bool, Option, none, some,
  List, [], ◌∷◌,
}

abbrev pub is_listed : Text → List SnapshotIndexEntry → Bool
is_listed id rs = any (λ s. same s.id id) rs

is_listed-append :
    (id : Text) (rs : List SnapshotIndexEntry) (e : SnapshotIndexEntry)
    → is_listed id (rs ++ e ∷ []) ≡ (is_listed id rs || same e.id id)
is_listed-append id [] e = ground arith
is_listed-append id (s ∷ rs) e = ground (arith, is_listed-append id rs e)

-- Every row has the property; and where the call went through, the entry is listed.
abbrev pub Kept :
    (SnapshotIndexEntry → Bool) → SnapshotIndexEntry → IndexFile × Result (Unit {0}) → Type 0
Kept p e r = (all p (rows r.0) ≡ true) × (r.1 ≡ ok tt → is_listed e.id (rows r.0) ≡ true)

all-snoc :
    (p : SnapshotIndexEntry → Bool) (rs : List SnapshotIndexEntry) (e : SnapshotIndexEntry)
    → all p (rs ++ e ∷ []) ≡ (all p rs && p e)
all-snoc p [] e = ground arith
all-snoc p (s ∷ rs) e = ground (arith, all-snoc p rs e)

append-Kept :
    (p : SnapshotIndexEntry → Bool) (net : Net) (e : SnapshotIndexEntry) (file : IndexFile)
    → p e ≡ true
    → all p (rows file) ≡ true
    → Kept p e (append net e file)
unfolding append read
append-Kept p net e none h k = ground arith
append-Kept p net e (some corrupt) h k = ground arith
append-Kept p net e (some (valid i)) h k =
    ground (arith, all-snoc p i.snapshots e, is_listed-append e.id i.snapshots e)

append_unless_present-Kept :
    (p : SnapshotIndexEntry → Bool) (nets : Attempts) (e : SnapshotIndexEntry) (file : IndexFile)
    → p e ≡ true
    → all p (rows file) ≡ true
    → Kept p e (append_unless_present nets e file)
unfolding append_unless_present read
append_unless_present-Kept p nets e file h k = ground (arith, append-Kept p nets.second e file h k)

-- The hook gives rows with the property to rows with the property.
abbrev pub IsSoundHook : (SnapshotIndexEntry → Bool) → Hook → Type 0
IsSoundHook p hook =
    (file : IndexFile) → all p (rows file) ≡ true → all p (rows (hook file).0) ≡ true

-- The same for a hook that may be missing.
abbrev pub IsSound : (SnapshotIndexEntry → Bool) → Option Hook → Type 0
IsSound p none = Unit {0}
IsSound p (some hook) = IsSoundHook p hook

after_rebuild-Kept :
    (p : SnapshotIndexEntry → Bool) (nets : Attempts) (e : SnapshotIndexEntry)
    (r : IndexFile × Result (Unit {0}))
    → p e ≡ true
    → all p (rows r.0) ≡ true
    → Kept p e (after_rebuild nets e r)
unfolding after_rebuild
after_rebuild-Kept p nets e (file, err f) h k = ground arith
after_rebuild-Kept p nets e (file, ok u) h k = append_unless_present-Kept p nets e file h k

heal-Kept :
    (p : SnapshotIndexEntry → Bool) (nets : Attempts) (hook : Option Hook) (e : SnapshotIndexEntry)
    (f : Failure) (file : IndexFile)
    → IsSound p hook
    → p e ≡ true
    → all p (rows file) ≡ true
    → Kept p e (heal nets hook e f file)
unfolding heal
heal-Kept p nets none e f file s h k = ground arith
heal-Kept p nets (some hook) e f file s h k = elim (Bool-cases (is_corruption f)) [
  | inl c ↦ rw c (after_rebuild-Kept p nets e (hook file) h (s file k))
  | inr c ↦ ground arith
]

-- An append that heals a corrupt index keeps the property of the rows, if the entry has it and the
-- hook keeps it, whichever call fails; and where it goes through, a row has the id of the entry.
pub append_with_self_heal-Kept :
    (p : SnapshotIndexEntry → Bool) (nets : Attempts) (hook : Option Hook) (e : SnapshotIndexEntry)
    (file : IndexFile)
    → IsSound p hook
    → p e ≡ true
    → all p (rows file) ≡ true
    → Kept p e (append_with_self_heal nets hook e file)
unfolding append_with_self_heal
append_with_self_heal-Kept p nets hook e file s h k =
    let first = append-Kept p nets.first e file h k in
    elim (Result-cases (append nets.first e file).1) [
      | inl (u, r) ↦ ground arith
      | inr (f, r) ↦
          ground (arith, heal-Kept p nets hook e f (append nets.first e file).0 s h first.0)
    ]
