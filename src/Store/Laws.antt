-- ===== src/Store/Laws.antt =====
-- What each operation of the snapshot index does to the rows.
use obsidian_archivist.Model.Failure.{ok}
use obsidian_archivist.Model.Manifest.{SnapshotIndexEntry, SnapshotManifest, Files}
use obsidian_archivist.Common.Text.{same, Text-discrete, Text}
use obsidian_archivist.Store.Index.{
  corrupt, valid, rows, without, succeeded, IndexFile, rebuild_from_entries, Net,
  manifest_to_index_entry, remove, read, unique_hashes,
}
use obsidian_archivist.Common.{
  has-add, add, false, refl, ◌≤◌, arith, ◌||◌, true, any, ◌≡◌, length, has, none, some, List, [],
  ◌∷◌,
}

without_le : (id : Text) (ss : List SnapshotIndexEntry) → length (without id ss) ≤ length ss
without_le id [] = omega arith
without_le id (s ∷ ss) = ground (arith, without_le id ss)

filter_shorter :
    (id : Text) (ss : List SnapshotIndexEntry)
    → length (without id ss) ≡ length ss
    → without id ss ≡ ss
filter_shorter id [] h = refl
filter_shorter id (s ∷ ss) h = ground (arith, filter_shorter id ss, without_le id ss)

-- Removing an id from a readable index takes out every row with that id and no other; with no such
-- row nothing is written. If the read or the upload fails the file stays as it was.
pub remove-rows :
    (net : Net) (id : Text) (file : IndexFile)
    → let (after, result) = remove net id file in
      ((succeeded result ≡ true) × (net.download_fails ≡ none)
        → rows after ≡ without id (rows file))
      × (succeeded result ≡ false → after ≡ file)
unfolding remove read
remove-rows net id none = ((λ h. ground arith), (λ h. ground arith))
remove-rows net id (some corrupt) = ((λ h. ground arith), (λ h. ground arith))
remove-rows net id (some (valid i)) =
    ((λ h. ground (arith, filter_shorter id i.snapshots)), (λ h. ground arith))

-- A rebuild makes any file readable, a corrupt one too: a read after it gives exactly the entries
-- of the rebuild, whatever the file held before.
pub read-rebuild :
    (net later : Net) (entries : List SnapshotIndexEntry) (file : IndexFile)
    → net.upload_fails ≡ none
    → later.download_fails ≡ none
    → read later (rebuild_from_entries net entries file).0
      ≡ ok (some (record { last_updated_at = net.now; snapshots = entries }))
unfolding read rebuild_from_entries
read-rebuild net later entries file u d = ground arith

has-unique_hashes :
    (fs : Files) (seen : List Text) (h : Text)
    → has Text-discrete (unique_hashes fs seen) h
      ≡ (has Text-discrete seen h || any (λ f. same f.1.hash h) fs)
unfolding unique_hashes
has-unique_hashes [] seen h = ground arith
has-unique_hashes ((p, e) ∷ fs) seen h = ground (
  arith,
  has-unique_hashes fs (add Text-discrete seen e.hash) h,
  has-add Text-discrete seen e.hash h,
)

-- The row of a manifest references exactly the hashes of the files that the manifest lists.
pub manifest_to_index_entry_hashes :
    (m : SnapshotManifest) (h : Text)
    → has Text-discrete (manifest_to_index_entry m).blob_hashes h
      ≡ any (λ f. same f.1.hash h) m.files
unfolding manifest_to_index_entry
manifest_to_index_entry_hashes m h = has-unique_hashes m.files [] h
