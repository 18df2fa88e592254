-- ===== src/Locks/Tests.antt =====
-- recipes/locks.go with a client that lists two lock nodes, the first of them ours.
use curator_go.Base.{
  ℕ, ◌+◌, ◌-◌, ◌≤◌, ◌≡◌, refl, ap, ◌≢◌, true, false, none, some, [], ◌∷◌, ◌++◌, arith, Bytes, text,
  bytes_eq, last_index, has_prefix,
}
use curator_go.Locks.{
  attempt_lock, PredicateResults, gets_the_lock, gets_from, Client, LockInternals, Mutex,
  get_sorted_children, internal_lock_loop, is_acquired, sort_children, insert_child, lock_less,
  fix_for_sorting, bytes_less,
}
use curator_go.Locks.Driver.{mutual_exclusion}
use curator_go.Locks.Internals.{Granted, internal_lock_loop-Granted}
use curator_go.Locks.Leaks.{attempt_lock-keeps}
use curator_go.Locks.Reentrancy.{acquires, releases, nested_locks}

abbrev ours : Bytes
ours = text "x-lock-1"

abbrev theirs : Bytes
theirs = text "a-lock-2"

abbrev first_gets : PredicateResults
first_gets = record { gets_the_lock = true; path_to_watch = [] }

first_byte : Bytes → ℕ
first_byte [] = 0
first_byte (c ∷ s) = c

abbrev ours_head : ℕ
ours_head = 120

apart : ours_head ≢ 97
apart e = omega arith

ours_not_theirs : ours ≢ theirs
unfolding first_byte
ours_not_theirs e = absurd (apart (ap first_byte e))

ours_first : gets_the_lock (ours ∷ theirs ∷ []) ours 1 ≡ some first_gets
unfolding gets_the_lock gets_from bytes_eq
ours_first = refl

mutual_exclusion_example : ours ≡ ours
mutual_exclusion_example =
    mutual_exclusion (ours ∷ theirs ∷ []) ours ours first_gets first_gets ours_first ours_first refl
      refl

-- The state of the client is unused.
abbrev client : Client ℕ
client = record {
  is_started = λ s. true;
  creates_the_lock = λ p payload s. ((text "/l/" ++ ours, none), s);
  get_children = λ p s. ((theirs ∷ ours ∷ [], none), s + 1);
  delete = λ p s. (none, s);
  watch = λ p s. s;
  allow_retry = λ n s. (false, s);
}

abbrev internals : LockInternals
internals = record {
  base_path = text "/l";
  lock_name = text "lock-";
  lock_path = text "/l/lock-";
  max_leases = 1;
}

loop_ends : internal_lock_loop client 2 internals (text "/l/" ++ ours) 0 ≡ some (true, 1)
unfolding internal_lock_loop get_sorted_children sort_children insert_child lock_less
    fix_for_sorting bytes_less gets_the_lock gets_from bytes_eq last_index has_prefix
loop_ends = refl

internal_lock_loop-Granted_example : Granted client internals (text "/l/" ++ ours) 1
internal_lock_loop-Granted_example =
    internal_lock_loop-Granted client 2 internals (text "/l/" ++ ours) 0 1 loop_ends

abbrev held : Mutex
held = record { lock_path = text "/l/" ++ ours; lock_count = 1 }

nested_locks_example :
    (m' : Mutex) × (acquires client 5 5 internals none 3 (held, 0) ≡ some (m', 0))
    × (releases client 5 5 internals none 3 (m', 0) ≡ (held, 0))
    × (is_acquired held ≡ true)
nested_locks_example = nested_locks client 5 5 internals none 3 held 0 (omega arith) (omega arith)

-- A client whose server has no lock nodes to list: its state is the number of nodes made.
abbrev forgetful : Client ℕ
forgetful = record {
  is_started = λ s. true;
  creates_the_lock = λ p payload s. ((text "/l/" ++ ours, none), s + 1);
  get_children = λ p s. (([], none), s);
  delete = λ p s. (none, s - 1);
  watch = λ p s. s;
  allow_retry = λ n s. (false, s);
}

-- The lock is not got, no error is returned, and the node that was made is left.
nothing_got : attempt_lock forgetful 2 2 internals none 0 3 ≡ some (([], none), 4)
unfolding attempt_lock internal_lock_loop get_sorted_children sort_children gets_the_lock gets_from
nothing_got = refl

attempt_lock-keeps_example : 3 ≤ 4
attempt_lock-keeps_example =
    attempt_lock-keeps forgetful (λ s. 3 ≤ s) (λ p s h. h) (λ p s h. h)
      (λ p payload s h. omega arith) (λ n s h. h) 2 2 internals none 0 3 (omega arith) nothing_got
