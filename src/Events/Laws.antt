-- ===== src/Events/Laws.antt =====
-- Which events the queue holds after its operations.
use obsidian_archivist.Model.Failure.{Failure}
use obsidian_archivist.Model.Manifest.{QueueEntry}
use obsidian_archivist.Common.Text.{Text}
use obsidian_archivist.Events.Queue.{
  advance_op, enqueue_op, is_after, run_op, EventQueue, commit_op, commit_window, repeats, Op,
  advance_cursor, run_ops, is_duplicate, enqueue,
}
use obsidian_archivist.Common.{
  not, ◌&&◌, ◌||◌, all, ◌∙◌, refl, Bool-cases, inr, arith, ap, false, inl, filter, true, ◌⊎◌, ◌≡◌,
  any, ℕ, ◌++◌, Bool, Option, List, [], ◌∷◌,
}

abbrev pub In : QueueEntry → List QueueEntry → Type 0
In e [] = ⊥
In e (x ∷ xs) = (x ≡ e) ⊎ In e xs

In-append : (e : QueueEntry) (xs ys : List QueueEntry) → In e xs → In e (xs ++ ys)
In-append e [] ys h = elim h [ ]
In-append e (x ∷ xs) ys (inl h) = inl h
In-append e (x ∷ xs) ys (inr h) = inr (In-append e xs ys h)

In-filter :
    (p : QueueEntry → Bool) (e : QueueEntry) (xs : List QueueEntry)
    → p e ≡ true
    → In e xs
    → In e (filter p xs)
In-filter p e [] k h = elim h [ ]
In-filter p e (x ∷ xs) k (inl h) = rw (ap p h ∙ k) (inl h)
In-filter p e (x ∷ xs) k (inr h) = elim (Bool-cases (p x)) [
  | inl c ↦ rw c (inr (In-filter p e xs k h))
  | inr c ↦ rw c (In-filter p e xs k h)
]

abbrev pub is_short_of : QueueEntry → Op → Bool
is_short_of e (commit_op ts) = is_after ts e
is_short_of e _ = true

-- No operation of the list commits a window that reaches up to the entry.
abbrev pub no_commit_past : QueueEntry → List (Option Failure × Op) → Bool
no_commit_past e ops = all (λ o. is_short_of e o.1) ops

-- The entries behind each operation.
enqueue_entries :
    (time_of : Text → Option ℕ) (f : Option Failure) (x : QueueEntry) (q : EventQueue)
    → let after = (enqueue time_of f x q).0.state.entries in
      (after ≡ q.state.entries)
      ⊎ ((is_duplicate time_of x q.state.entries ≡ false) × (after ≡ q.state.entries ++ x ∷ []))
unfolding enqueue
enqueue_entries time_of f x q =
    elim (Bool-cases (q.initialized && not (is_duplicate time_of x q.state.entries))) [
      | inl c ↦ inr (ground arith, ground arith)
      | inr c ↦ inl (ground arith)
    ]

advance_cursor_entries :
    (f : Option Failure) (ts : Text) (q : EventQueue)
    → (advance_cursor f ts q).0.state.entries ≡ q.state.entries
unfolding advance_cursor
advance_cursor_entries f ts q = ground arith

commit_window_entries :
    (f : Option Failure) (ts : Text) (q : EventQueue)
    → let after = (commit_window f ts q).0.state.entries in
      (after ≡ q.state.entries) ⊎ (after ≡ filter (is_after ts) q.state.entries)
unfolding commit_window
commit_window_entries f ts q = elim (Bool-cases q.initialized) [
  | inl i ↦ inr (ground arith)
  | inr i ↦ inl (ground arith)
]

op_keeps :
    (time_of : Text → Option ℕ) (f : Option Failure) (op : Op) (q : EventQueue) (e : QueueEntry)
    → is_short_of e op ≡ true
    → In e q.state.entries
    → In e (run_op time_of f op q).state.entries
op_keeps time_of f (enqueue_op x) q e k h = elim (enqueue_entries time_of f x q) [
  | inl c ↦ rw c h
  | inr (d, c) ↦ rw c (In-append e q.state.entries (x ∷ []) h)
]
op_keeps time_of f (advance_op ts) q e k h = rw (advance_cursor_entries f ts q) h
op_keeps time_of f (commit_op ts) q e k h = elim (commit_window_entries f ts q) [
  | inl c ↦ rw c h
  | inr c ↦ rw c (In-filter (is_after ts) e q.state.entries k h)
]

-- An entry stays in the queue through any operations, failed saves among them, until a window is
-- committed that reaches up to its time.
pub run_ops_keeps :
    (time_of : Text → Option ℕ) (ops : List (Option Failure × Op)) (q : EventQueue) (e : QueueEntry)
    → no_commit_past e ops ≡ true
    → In e q.state.entries
    → In e (run_ops time_of ops q).state.entries
unfolding run_ops
run_ops_keeps time_of [] q e k h = h
run_ops_keeps time_of ((f, op) ∷ ops) q e k h =
    run_ops_keeps time_of ops (run_op time_of f op q) e (ground arith)
      (op_keeps time_of f op q e (ground arith) h)

-- Of two entries no later one repeats an earlier one.
abbrev pub NoRepeats : (Text → Option ℕ) → List QueueEntry → Type 0
NoRepeats time_of [] = Unit {0}
NoRepeats time_of (x ∷ xs) = (any (λ y. repeats time_of y x) xs ≡ false) × NoRepeats time_of xs

any-append :
    (p : QueueEntry → Bool) (xs ys : List QueueEntry) → any p (xs ++ ys) ≡ (any p xs || any p ys)
any-append p [] ys = refl
any-append p (x ∷ xs) ys = ground (arith, any-append p xs ys)

NoRepeats-append :
    (time_of : Text → Option ℕ) (xs : List QueueEntry) (e : QueueEntry)
    → is_duplicate time_of e xs ≡ false
    → NoRepeats time_of xs
    → NoRepeats time_of (xs ++ e ∷ [])
unfolding is_duplicate
NoRepeats-append time_of [] e d h = (refl, tt)
NoRepeats-append time_of (x ∷ xs) e d h = (
  ground (arith, any-append (λ y. repeats time_of y x) xs (e ∷ [])),
  NoRepeats-append time_of xs e (ground arith) h.1,
)

any-filter :
    (p r : QueueEntry → Bool) (xs : List QueueEntry)
    → any r xs ≡ false
    → any r (filter p xs) ≡ false
any-filter p r [] h = refl
any-filter p r (x ∷ xs) h = ground (arith, any-filter p r xs)

NoRepeats-filter :
    (time_of : Text → Option ℕ) (p : QueueEntry → Bool) (xs : List QueueEntry)
    → NoRepeats time_of xs
    → NoRepeats time_of (filter p xs)
NoRepeats-filter time_of p [] h = tt
NoRepeats-filter time_of p (x ∷ xs) h = elim (Bool-cases (p x)) [
  | inl c ↦ rw c (any-filter p (λ y. repeats time_of y x) xs h.0, NoRepeats-filter time_of p xs h.1)
  | inr c ↦ rw c (NoRepeats-filter time_of p xs h.1)
]

op_NoRepeats :
    (time_of : Text → Option ℕ) (f : Option Failure) (op : Op) (q : EventQueue)
    → NoRepeats time_of q.state.entries
    → NoRepeats time_of (run_op time_of f op q).state.entries
op_NoRepeats time_of f (enqueue_op x) q h = elim (enqueue_entries time_of f x q) [
  | inl c ↦ rw c h
  | inr (d, c) ↦ rw c (NoRepeats-append time_of q.state.entries x d h)
]
op_NoRepeats time_of f (advance_op ts) q h = rw (advance_cursor_entries f ts q) h
op_NoRepeats time_of f (commit_op ts) q h = elim (commit_window_entries f ts q) [
  | inl c ↦ rw c h
  | inr c ↦ rw c (NoRepeats-filter time_of (is_after ts) q.state.entries h)
]

-- No operation makes a later entry of the queue repeat an earlier one.
pub run_ops-NoRepeats :
    (time_of : Text → Option ℕ) (ops : List (Option Failure × Op)) (q : EventQueue)
    → NoRepeats time_of q.state.entries
    → NoRepeats time_of (run_ops time_of ops q).state.entries
unfolding run_ops
run_ops-NoRepeats time_of [] q h = h
run_ops-NoRepeats time_of ((f, op) ∷ ops) q h =
    run_ops-NoRepeats time_of ops (run_op time_of f op q) (op_NoRepeats time_of f op q h)
