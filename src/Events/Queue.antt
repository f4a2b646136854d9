-- ===== src/Events/Queue.antt =====
-- src/infra/EventQueue.ts: the queue in memory and as it was saved last. The operations run one
-- after the other on the chain `opQueue`, and a failed save does not stop that chain.
use obsidian_archivist.Model.Failure.{unknown, err, ok, Result, Failure}
use obsidian_archivist.Model.Manifest.{
  rename, ChangeType-discrete, QueueData, QueueEntry, ChangeType,
}
use obsidian_archivist.Common.Text.{Text-discrete, less, same, Text}
use obsidian_archivist.Common.{
  ◌||◌, ◌++◌, true, not, ◌&&◌, ◌+◌, if◌then◌else◌, any, filter, eqb, false, ltb, ℕ, Bool, Option,
  none, some, List, [], ◌∷◌,
}

pub record EventQueue : Type 0 where
  pub state : QueueData
  pub initialized : Bool
  pub saved : QueueData

abbrev pub empty_queue : QueueData
empty_queue = record { committed_through = none; entries = [] }

-- The constructor, over what the plugin's store holds.
abbrev pub new_queue : QueueData → EventQueue
new_queue stored = record { state = empty_queue; initialized = false; saved = stored }

-- Only the first call loads. A load that fails leaves the queue as it was.
unfoldable pub init : Option Failure → EventQueue → EventQueue × Result (Unit {0})
init fails q = elim fails [
  | some f ↦ if q.initialized then (q, ok tt) else (q, err f)
  | none ↦
      if q.initialized
      then (q, ok tt)
      else (record q { state = q.saved; initialized = true }, ok tt)
]

-- `saveQueue`: the state in memory is already the new one where it fails.
abbrev pub save : Option Failure → QueueData → EventQueue → EventQueue × Result (Unit {0})
save none next q = (record q { state = next; saved = next }, ok tt)
save (some f) next q = (record q { state = next }, err f)

abbrev pub dedup_window_ms : ℕ
dedup_window_ms = 1000

-- `Math.abs(a - b) < 1000`.
abbrev pub is_close : ℕ → ℕ → Bool
is_close a b = ltb a (b + dedup_window_ms) && ltb b (a + dedup_window_ms)

-- The same for two texts, false where one of them is no date.
abbrev pub is_close_in_time : (Text → Option ℕ) → Text → Text → Bool
is_close_in_time time_of a b = elim (time_of a) [
  | none ↦ false
  | some x ↦ elim (time_of b) [ none ↦ false | some y ↦ is_close x y ]
]

abbrev pub same_change : ChangeType → ChangeType → Bool
same_change = eqb ChangeType-discrete

unfoldable pub OptionText-discrete : Discrete (Option Text)
OptionText-discrete = hlevel Text-discrete

abbrev pub same_prev : Option Text → Option Text → Bool
same_prev = eqb OptionText-discrete

-- The test of `isDuplicate` on one entry.
abbrev pub repeats : (Text → Option ℕ) → QueueEntry → QueueEntry → Bool
repeats time_of e existing =
    same existing.path e.path
    && same_change existing.change e.change
    && (not (same_change e.change rename) || same_prev existing.prev_path e.prev_path)
    && is_close_in_time time_of e.observed_at existing.observed_at

unfoldable pub is_duplicate : (Text → Option ℕ) → QueueEntry → List QueueEntry → Bool
is_duplicate time_of e es = any (repeats time_of e) es

-- `enqueue`, with the id that it makes in the entry.
unfoldable pub enqueue :
    (Text → Option ℕ) → Option Failure → QueueEntry → EventQueue → EventQueue × Result (Unit {0})
enqueue time_of fails e q =
    if not q.initialized
    then (q, err unknown)
    else if is_duplicate time_of e q.state.entries
    then (q, ok tt)
    else save fails (record q.state { entries = q.state.entries ++ e ∷ [] }) q

unfoldable pub advance_cursor : Option Failure → Text → EventQueue → EventQueue × Result (Unit {0})
advance_cursor fails ts q =
    if not q.initialized
    then (q, err unknown)
    else save fails (record q.state { committed_through = some ts }) q

-- `e.observed_at > cursor`.
abbrev pub is_after : Text → QueueEntry → Bool
is_after cursor e = less cursor e.observed_at

unfoldable pub commit_window : Option Failure → Text → EventQueue → EventQueue × Result (Unit {0})
commit_window fails ts q =
    if not q.initialized
    then (q, err unknown)
    else save fails
        (record { committed_through = some ts; entries = filter (is_after ts) q.state.entries }) q

unfoldable pub peek_since : Option Text → EventQueue → List QueueEntry
peek_since none q = q.state.entries
peek_since (some cursor) q = filter (is_after cursor) q.state.entries

pub data Op : Type 0 where
  enqueue_op : QueueEntry → Op
  advance_op : Text → Op
  commit_op : Text → Op

-- The operations in the order of the chain, each with the outcome of its save.
abbrev pub run_op : (Text → Option ℕ) → Option Failure → Op → EventQueue → EventQueue
run_op time_of fails (enqueue_op e) q = (enqueue time_of fails e q).0
run_op time_of fails (advance_op ts) q = (advance_cursor fails ts q).0
run_op time_of fails (commit_op ts) q = (commit_window fails ts q).0

unfoldable pub run_ops : (Text → Option ℕ) → List (Option Failure × Op) → EventQueue → EventQueue
unfolding enqueue advance_cursor commit_window
run_ops time_of [] q = q
run_ops time_of ((f, op) ∷ ops) q = run_ops time_of ops (run_op time_of f op q)
