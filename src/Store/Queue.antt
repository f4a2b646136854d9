-- ===== src/Store/Queue.antt =====
-- The write queue of src/services/SnapshotIndexStore.ts: tasks run one after another, and a task
-- that fails does not stop those behind it.
use obsidian_archivist.Model.Failure.{Result}
use obsidian_archivist.Model.Manifest.{SnapshotIndexEntry}
use obsidian_archivist.Store.Index.{
  valid, rows, corrupt, rebuild_from_entries, IndexFile, append, Net,
}
use mathlib.Core.List.{append-nil, append_assoc}
use obsidian_archivist.Common.{
  arith, ◌++◌, true, is_some, ◌≡◌, if◌then◌else◌, false, map, Bool, none, some, List, [], ◌∷◌,
}

pub data Task : Type 0 where
  appending : SnapshotIndexEntry → Task
  rebuilding : List SnapshotIndexEntry → Task

-- What the caller of a task is told, in order of the calls.
abbrev pub run_task : Net → Task → IndexFile → IndexFile × Result (Unit {0})
run_task net (appending e) file = append net e file
run_task net (rebuilding es) file = rebuild_from_entries net es file

unfoldable pub run_queue :
    List (Net × Task) → IndexFile → List (Result (Unit {0})) → IndexFile × List (Result (Unit {0}))
run_queue [] file told = (file, told)
run_queue ((net, task) ∷ tasks) file told =
    let (after, result) = run_task net task file in run_queue tasks after (told ++ result ∷ [])

-- The entries whose append its own network lets through, where the file can be read.
abbrev pub entries_of : List (Net × SnapshotIndexEntry) → List SnapshotIndexEntry
entries_of [] = []
entries_of ((net, e) ∷ es) =
    let rest = entries_of es in if is_some net.upload_fails then rest else e ∷ rest

abbrev pub appends : List (Net × SnapshotIndexEntry) → List (Net × Task)
appends = map (λ c. (c.0, appending c.1))

abbrev pub AllRead : List (Net × SnapshotIndexEntry) → Type 0
AllRead [] = Unit {0}
AllRead ((net, e) ∷ es) = (net.download_fails ≡ none) × AllRead es

abbrev pub readable : IndexFile → Bool
readable (some corrupt) = false
readable _ = true

append-readable :
    (net : Net) (e : SnapshotIndexEntry) (file : IndexFile)
    → net.download_fails ≡ none
    → readable file ≡ true
    → let after = (append net e file).0 in
      (readable after ≡ true)
      × (rows after ≡ (if is_some net.upload_fails then rows file else rows file ++ e ∷ []))
unfolding append
append-readable net e (some corrupt) d r = absurd (ground arith)
append-readable net e none d r = ground arith
append-readable net e (some (valid i)) d r = ground arith

-- No append on the queue is lost and none doubled: after any queue of appends the index has its
-- rows from before and behind them, in the order of the calls, exactly the entries whose upload
-- went through, if the file was readable and no download failed.
pub run_queue-appends :
    (es : List (Net × SnapshotIndexEntry)) (file : IndexFile) (told : List (Result (Unit {0})))
    → AllRead es
    → readable file ≡ true
    → rows (run_queue (appends es) file told).0 ≡ rows file ++ entries_of es
unfolding run_queue
run_queue-appends [] file told a r = rw append-nil
run_queue-appends ((net, e) ∷ es) file told a r =
    let (after, result) = append net e file in
    let stays = append-readable net e file a.0 r in
    ground (
      arith,
      stays,
      run_queue-appends es after (told ++ result ∷ []) a.1,
      append_assoc (rows file) (e ∷ []) (entries_of es),
    )
