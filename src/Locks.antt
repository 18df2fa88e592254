-- ===== src/Locks.antt =====
-- recipes/locks.go: the lock driver, the lock internals and the re-entrant mutex.
pub mod Driver
pub mod Reentrancy
pub mod Internals
pub mod Leaks
mod Tests
use curator_go.Base.{
  ℕ, zero, suc, ◌+◌, ◌-◌, ◌%◌, Bool, true, false, ◌&&◌, not, Option, none, some, List, [], ◌∷◌, ltb,
  leb, ◌==◌, if◌then◌else◌, length, drop, get_elem?, Bytes, bytes_eq, last_index, ℤ,
}
use curator_go.Errors.{Err, zk, no_node, not_owner, negative_count, lost_connection, is_no_node}
use curator_go.Zk.{Slice}
use curator_go.Path.{slash, join_path}

-- StandardLockInternalsDriver.FixForSorting: what stands behind the last lock name.
pub fix_for_sorting : Bytes → Bytes → Bytes
fix_for_sorting str lock_name = elim (last_index str lock_name) [
  | none ↦ str
  | some idx ↦
      if leb (idx + length lock_name) (length str) then drop (idx + length lock_name) str else []
]

pub record PredicateResults : Type 0 where
  pub gets_the_lock : Bool
  pub path_to_watch : Bytes

-- The loop of GetsTheLock; `before` holds the children at the indices below `i`, in order. An
-- index out of range, which a negative number of leases would give, does not occur on ℕ.
gets_from : List Bytes → ℕ → List Bytes → Bytes → ℕ → Option PredicateResults
gets_from all i [] name max_leases = none
gets_from all i (child ∷ rest) name max_leases =
    let later = gets_from all (i + 1) rest name max_leases in
    let watched : Bytes = elim (get_elem? all (i - max_leases)) [ none ↦ [] | some p ↦ p ] in
    if bytes_eq child name
    then some (
        if ltb i max_leases
        then record { gets_the_lock = true; path_to_watch = [] }
        else record { gets_the_lock = false; path_to_watch = watched })
    else later

-- GetsTheLock; `none` is the error zk.ErrNoNode.
pub gets_the_lock : List Bytes → Bytes → ℕ → Option PredicateResults
unfolding gets_from
gets_the_lock children name max_leases = gets_from children 0 children name max_leases

-- The order of Go on strings.
pub bytes_less : Bytes → Bytes → Bool
bytes_less s [] = false
bytes_less [] (d ∷ t) = true
bytes_less (c ∷ s) (d ∷ t) =
    let rest = bytes_less s t in if ltb c d then true else (if c == d then rest else false)

-- The order of getSortedChildren.
pub lock_less : Bytes → Bytes → Bytes → Bool
unfolding fix_for_sorting bytes_less
lock_less lock_name a b = bytes_less (fix_for_sorting a lock_name) (fix_for_sorting b lock_name)

-- sort.Sort over a ChildrenSorter: here by insertion. The result is the same for every sorting
-- algorithm where no two children compare as equal.
insert_child : Bytes → Bytes → List Bytes → List Bytes
insert_child lock_name a [] = a ∷ []
insert_child lock_name a (b ∷ rest) =
    let further = b ∷ insert_child lock_name a rest in
    if lock_less lock_name b a then further else a ∷ b ∷ rest

pub sort_children : Bytes → List Bytes → List Bytes
unfolding insert_child lock_less
sort_children lock_name [] = []
sort_children lock_name (a ∷ rest) = insert_child lock_name a (sort_children lock_name rest)

-- InterProcessMutex; `lock_count` is an int32, as its residue modulo 2^32.
pub record Mutex : Type 0 where
  pub lock_path : Bytes
  pub lock_count : ℕ

abbrev two_31 : ℕ
two_31 = 2147483648

abbrev two_32 : ℕ
two_32 = 4294967296

-- IsAcquiredInThisProcess.
pub is_acquired : Mutex → Bool
is_acquired m = ltb 0 m.lock_count && ltb m.lock_count two_31

-- What the lock uses of its client: the creation of its sequential node (the driver's
-- CreatesTheLock), the list of children, the deletion of a node, the wait for the node before
-- ours or for the timer, and the retry policy.
pub record Client (S : Type 0) : Type 0 where
  pub is_started : S → Bool
  pub creates_the_lock : Bytes → Slice ℕ → S → (Bytes × Option Err) × S
  pub get_children : Bytes → S → (List Bytes × Option Err) × S
  pub delete : Bytes → S → Option Err × S
  pub watch : Bytes → S → S
  pub allow_retry : ℕ → S → Bool × S

pub record LockInternals : Type 0 where
  pub base_path : Bytes
  pub lock_name : Bytes
  pub lock_path : Bytes
  pub max_leases : ℕ

module _ {S : Type 0} (client : Client S) where
  pub get_sorted_children : LockInternals → S → (List Bytes × Option Err) × S
  get_sorted_children l s =
      let (listed, s1) = client.get_children l.base_path s in
      ((elim (listed.1) [ none ↦ sort_children l.lock_name listed.0 | some e ↦ [] ], listed.1), s1)

  -- The loop of internalLockLoop: whether the lock is ours. The errors inside it are variables of
  -- inner scopes, so the result's error stays nil and the deletion at its end never happens.
  pub internal_lock_loop : ℕ → LockInternals → Bytes → S → Option (Bool × S)
  internal_lock_loop zero l path s = none
  internal_lock_loop (suc fuel) l path s =
      let (listed, s1) = get_sorted_children l s in
      let name = drop (length l.base_path + 1) path in
      elim (if client.is_started s then some (listed.1) else none) [
        | none ↦ some (false, s)
        | some (some e) ↦ some (false, s1)
        | some none ↦ elim (gets_the_lock listed.0 name l.max_leases) [
          | none ↦ some (false, s1)
          | some r ↦
              let waited = client.watch (join_path l.base_path (r.path_to_watch ∷ [])) s1 in
              let again = internal_lock_loop fuel l path waited in
              if r.gets_the_lock then some (true, s1) else again
        ]
      ]

  -- attemptLock: the path of our node, or the empty path where the lock was not got.
  pub attempt_lock : ℕ → ℕ → LockInternals → Slice ℕ → ℕ → S → Option ((Bytes × Option Err) × S)
  attempt_lock rounds zero l payload retry_count s = none
  attempt_lock rounds (suc fuel) l payload retry_count s =
      let (made, s1) = client.creates_the_lock l.lock_path payload s in
      elim (made.1) [
        | none ↦ elim (internal_lock_loop rounds l made.0 s1) [
          | none ↦ none
          | some (has, s2) ↦ some ((if has then made.0 else [], none), s2)
        ]
        | some e ↦
            let (allowed, s2) = client.allow_retry (retry_count + 1) s1 in
            let again = attempt_lock rounds fuel l payload (retry_count + 1) s2 in
            if is_no_node e
            then (if allowed then again else some (([], some e), s2))
            else some (([], some e), s1)
      ]

  -- deleteOurPath, which releaseLock calls.
  release_lock : Bytes → S → Option Err × S
  release_lock path s =
      let (err, s1) = client.delete path s in
      (elim err [ none ↦ none | some e ↦ if is_no_node e then none else some e ], s1)

  -- internalLock.
  pub internal_lock :
      ℕ → ℕ → LockInternals → Slice ℕ → Mutex → S → Option ((Bool × Option Err) × Mutex × S)
  internal_lock rounds fuel l payload m s =
      if is_acquired m
      then some ((true, none), record m { lock_count = (m.lock_count + 1) % two_32 }, s)
      else elim (attempt_lock rounds fuel l payload 0 s) [
        | none ↦ none
        | some ((path, some e), s1) ↦ some ((false, some e), m, s1)
        | some ((path, none), s1) ↦ some (
            if ltb 0 (length path)
            then ((true, none), record { lock_path = path; lock_count = 1 }, s1)
            else ((false, none), m, s1))
      ]

  -- Acquire.
  pub acquire :
      ℕ → ℕ → LockInternals → Slice ℕ → Mutex → S → Option ((Bool × Option Err) × Mutex × S)
  unfolding internal_lock is_acquired
  acquire rounds fuel l payload m s = elim (internal_lock rounds fuel l payload m s) [
    | none ↦ none
    | some ((locked, some e), m1, s1) ↦ some ((false, some e), m1, s1)
    | some ((locked, none), m1, s1) ↦
        some (if locked then ((true, none), m1, s1) else ((false, some lost_connection), m1, s1))
  ]

  -- Release.
  pub release : Mutex → S → Option Err × Mutex × S
  unfolding release_lock is_acquired
  release m s =
      if not (is_acquired m)
      then (some not_owner, m, s)
      else (let count = (m.lock_count + two_32 - 1) % two_32 in
          let m1 = record m { lock_count = count } in
          let (err, s1) = release_lock m.lock_path s in
          if ltb 0 count && ltb count two_31
          then (none, m1, s)
          else (if ltb 0 count then (some negative_count, m1, s) else (err, m1, s1)))
