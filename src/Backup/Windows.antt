-- ===== src/Backup/Windows.antt =====
-- What the buckets of a window of queued events say of a path.
use obsidian_archivist.Backup.Agreement.{last_at-lists, lists}
use obsidian_archivist.Restore.Replay.{apply_renames, replay}
use obsidian_archivist.Restore.Laws.{at-replay, at}
use obsidian_archivist.Common.Text.{Text-discrete, same, Text}
use obsidian_archivist.Backup.Buckets.{
  no_buckets, rename_entries, Buckets, drop_renames_onto, bucket_entry, bucket_queue_entries,
  bucket_from,
}
use obsidian_archivist.Common.{
  refl, has-filter, is_some, has-add, arith, ◌≢◌, has, false, ◌≡◌, if◌then◌else◌, true, all, not,
  Bool, Option, none, some, List, [], ◌∷◌,
}
use obsidian_archivist.Model.Manifest.{
  SnapshotManifest, Files, QueueEntry, ChangeType, delete, rename,
}

-- The last of the events on a path, in a window with no rename.
abbrev pub last_change : List QueueEntry → Text → Option ChangeType
last_change [] p = none
last_change (e ∷ es) p = elim (last_change es p) [
  | some c ↦ some c
  | none ↦ if same e.path p then some e.change else none
]

abbrev pub is_rename : ChangeType → Bool
is_rename rename = true
is_rename _ = false

abbrev pub no_renames : List QueueEntry → Bool
no_renames = all (λ e. not (is_rename e.change))

abbrev pub is_delete : ChangeType → Bool
is_delete delete = true
is_delete _ = false

-- What the buckets should say of a path, given what they said before the window.
abbrev says_changed : Option ChangeType → Bool → Bool
says_changed none before = before
says_changed (some c) before = not (is_delete c)

abbrev says_deleted : Option ChangeType → Bool → Bool
says_deleted none before = before
says_deleted (some c) before = is_delete c

bucket_entry_lem :
    (e : QueueEntry) (b : Buckets) (p : Text)
    → is_rename e.change ≡ false
    → b.renames ≡ []
    → let c = bucket_entry e b in
      (c.renames ≡ [])
      × (has Text-discrete c.changes p
          ≡ (if same e.path p then not (is_delete e.change) else has Text-discrete b.changes p))
      × (has Text-discrete c.deleted p
          ≡ (if same e.path p then is_delete e.change else has Text-discrete b.deleted p))
unfolding bucket_entry drop_renames_onto
bucket_entry_lem e b p n r = ground (
  arith,
  has-add Text-discrete b.changes e.path p,
  has-add Text-discrete b.deleted e.path p,
  has-filter Text-discrete (λ (x : Text). not (same x e.path)) b.changes p,
  has-filter Text-discrete (λ (x : Text). not (same x e.path)) b.deleted p,
)

bucket_from_lem :
    (es : List QueueEntry) (b : Buckets) (p : Text)
    → no_renames es ≡ true
    → b.renames ≡ []
    → let c = bucket_from es b in
      (c.renames ≡ [])
      × (has Text-discrete c.changes p
          ≡ says_changed (last_change es p) (has Text-discrete b.changes p))
      × (has Text-discrete c.deleted p
          ≡ says_deleted (last_change es p) (has Text-discrete b.deleted p))
unfolding bucket_from
bucket_from_lem [] b p n r = ground arith
bucket_from_lem (e ∷ es) b p n r =
    ground (arith, bucket_from_lem es (bucket_entry e b) p, bucket_entry_lem e b p)

-- In a window with no rename a path is in the changed bucket exactly when the last event on it is
-- a create or a modify, and in the deleted bucket exactly when that is a delete; so never in both.
pub bucket_queue_entries_last :
    (es : List QueueEntry) (p : Text)
    → no_renames es ≡ true
    → let b = bucket_queue_entries es in
      (has Text-discrete b.changes p ≡ says_changed (last_change es p) false)
      × (has Text-discrete b.deleted p ≡ says_deleted (last_change es p) false)
      × (b.renames ≡ [])
unfolding bucket_queue_entries
bucket_queue_entries_last es p n = ground (arith, bucket_from_lem es no_buckets p n refl)

module _ (a b : Text) (del ren : QueueEntry) (deletes : del.change ≡ delete)
    (deletes_b : del.path ≡ b) (renames : ren.change ≡ rename) (renames_onto_b : ren.path ≡ b)
    (renames_a : ren.prev_path ≡ some a) where
  lost_buckets :
      bucket_queue_entries (del ∷ ren ∷ [])
      ≡ record { changes = []; deleted = b ∷ []; renames = (a, b) ∷ [] }
  unfolding bucket_queue_entries bucket_from bucket_entry drop_renames_onto
  lost_buckets = ground arith

  -- A window in which the file `b` is deleted and then `a` is renamed to `b`: the buckets delete `b`
  -- and do not list it as changed. So the replay of a manifest with these deletes and renames, which
  -- lists neither path, on a state that has both files, keeps `a` and loses `b`, where the vault has
  -- the content of `a` at `b` and no `a`.
  pub delete_then_rename_lost :
      (state : Files) (m : SnapshotManifest)
      → a ≢ b
      → m.renames ≡ rename_entries (bucket_queue_entries (del ∷ ren ∷ []))
      → m.deleted ≡ (bucket_queue_entries (del ∷ ren ∷ [])).deleted
      → lists m.files a ≡ false
      → lists m.files b ≡ false
      → is_some (at state a) ≡ true
      → is_some (at state b) ≡ true
      → ((bucket_queue_entries (del ∷ ren ∷ [])).changes ≡ [])
        × (at (replay state m) b ≡ none)
        × (at (replay state m) a ≡ at state a)
  unfolding apply_renames
  delete_then_rename_lost state m ne rs ds la lb ha hb = ground (
    arith,
    lost_buckets,
    at-replay state m a,
    at-replay state m b,
    last_at-lists m.files a,
    last_at-lists m.files b,
  )
