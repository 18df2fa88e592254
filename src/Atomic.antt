-- ===== src/Atomic.antt =====
-- recipes/atomic.go: a value that several clients share, kept as the data of one node.
pub mod History
pub mod Limits
pub mod Loops
pub mod Mutexes
pub mod Sample
pub mod Set
pub mod Tries
pub mod Writes
mod Tests
mod Types
pub use Types.*
use curator_go.Base.{
  ℕ, zero, suc, ◌+◌, Bool, true, false, not, ◌&&◌, ◌||◌, Option, none, some, if◌then◌else◌, Bytes,
  bytes_eq, ℤ,
}
use curator_go.Errors.{Err, is_no_node, is_node_exists, is_bad_version}
use curator_go.Zk.{Slice, elements, any_version}
use curator_go.Retry.{Policy, Sleeper}

module _ {S : Type 0} (v : DistributedAtomicValue S) where
  -- Whether the node is missing, the error, the result with the value read, and the version.
  unfoldable pub current_value :
      MutableAtomicValue → S → (Bool × Option Err × MutableAtomicValue × ℤ) × S
  current_value result s =
      let ((read, version, err), s1) = v.client.get_data s in
      elim err [
        | none ↦ ((false, none, record result { pre_value = read }, version), s1)
        | some e ↦
            if is_no_node e
            then ((true, none, record result { pre_value = none }, version), s1)
            else ((false, some e, result, version), s1)
      ]

  pub get : S → (Option MutableAtomicValue × Option Err) × S
  unfolding current_value
  get s =
      let ((create_it, err, result, version), s1) = current_value blank_value s in
      elim err [
        | some e ↦ ((none, some e), s1)
        | none ↦
            ((some (record result { post_value = result.pre_value; succeeded = true }), none), s1)
      ]

  pub force_set : Slice ℕ → S → Option Err × S
  force_set new_value s =
      let (set, s1) = v.client.set_data any_version new_value s in
      let (created, s2) = v.client.create new_value s1 in
      let missing : Bool = elim set [ none ↦ false | some e ↦ is_no_node e ] in
      let exists : Bool = elim created [ none ↦ false | some e ↦ is_node_exists e ] in
      if missing
      then (if exists then v.client.set_data any_version new_value s2 else (created, s2))
      else (set, s1)

  -- CompareAndSet, for an answer to its SetData.
  abbrev pub compared :
      Option Err → Slice ℕ → MutableAtomicValue → Option MutableAtomicValue × Option Err
  compared none new_value result =
      (some (record result { succeeded = true; post_value = new_value }), none)
  compared (some e) new_value result =
      if is_bad_version e || is_no_node e
      then (some (record result { succeeded = false }), none)
      else (none, some e)

  pub compare_and_set : Slice ℕ → Slice ℕ → S → (Option MutableAtomicValue × Option Err) × S
  unfolding current_value
  compare_and_set expected_value new_value s =
      let ((create_it, err, result, version), s1) = current_value blank_value s in
      elim err [
        | some e ↦ ((none, some e), s1)
        | none ↦
            if not create_it && bytes_equal expected_value result.pre_value
            then (let (set, s2) = v.client.set_data version new_value s1 in
                (compared set new_value result, s2))
            else ((some (record result { succeeded = false }), none), s1)
      ]

  pub initialize : Slice ℕ → S → (Bool × Option Err) × S
  initialize value s =
      let (created, s1) = v.client.create_default s in
      elim created [
        | none ↦ ((true, none), s1)
        | some e ↦ if is_node_exists e then ((false, none), s1) else ((false, some e), s1)
      ]

  -- tryOnce, for an answer to its write.
  abbrev pub tried :
      Option Err → Slice ℕ → MutableAtomicValue → Bool × Option Err × MutableAtomicValue
  tried none new_value result = (true, none, record result { post_value = new_value })
  tried (some e) new_value result =
      if is_conflict e then (false, none, result) else (false, some e, result)

  unfoldable pub try_once :
      MutableAtomicValue → Slice ℕ → S → (Bool × Option Err × MutableAtomicValue) × S
  unfolding current_value
  try_once result new_value s =
      let ((create_it, err, result1, version), s1) = current_value result s in
      elim err [
        | some e ↦ ((false, some e, result1), s1)
        | none ↦
            let (wrote, s2) =
              if create_it
              then v.client.create new_value s1
              else v.client.set_data version new_value s1 in
            (tried wrote new_value result1, s2)
      ]

  -- What follows a try in a round of the loops below.
  abbrev pub settled :
      Bool × Option Err × MutableAtomicValue
      → ℕ
      → S
      → Bool × S
      → Option ((Option Err × ℕ × MutableAtomicValue) × S)
      → Option ((Option Err × ℕ × MutableAtomicValue) × S)
  settled (success, some e, result) tries s asked rest = some ((some e, tries, result), s)
  settled (true, none, result) tries s asked rest =
      some ((none, tries, record result { succeeded = true }), s)
  settled (false, none, result) tries s (true, s1) rest = rest
  settled (false, none, result) tries s (false, s1) rest = some ((none, tries, result), s1)

  -- The loop of tryOptimistic and that of tryWithMutex, which count their tries in a field of their
  -- own and ask a policy of their own. `none` means that the fuel ran out.
  unfoldable pub try_loop :
      ℕ
      → Policy S
      → ℕ
      → Slice ℕ
      → ℕ
      → MutableAtomicValue
      → S
      → Option ((Option Err × ℕ × MutableAtomicValue) × S)
  try_loop zero policy start_time new_value tries result s = none
  try_loop (suc fuel) policy start_time new_value tries result s =
      let (tried, s1) = try_once result new_value s in
      let asked = policy (tries + 1) (v.client.since start_time s1) v.client.sleeper s1 in
      let rest = try_loop fuel policy start_time new_value (tries + 1) tried.2 asked.1 in
      settled tried (tries + 1) s1 asked rest

  pub try_optimistic :
      ℕ → MutableAtomicValue → Slice ℕ → S → Option ((Option Err × MutableAtomicValue) × S)
  try_optimistic fuel result new_value s =
      let start_time = v.client.now s in
      elim (try_loop fuel v.retry_policy start_time new_value result.optimistic_tries result s) [
        | none ↦ none
        | some ((err, tries, result1), s1) ↦ some (
          (
            err,
            record result1 {
              optimistic_tries = tries;
              optimistic_time = v.client.since start_time s1;
            },
          ),
          s1,
        )
      ]

  -- The error of Release is dropped. The time is taken after it, by the deferred function that was
  -- the first to be deferred.
  pub try_with_mutex :
      ℕ
      → PromotedToLock S
      → MutableAtomicValue
      → Slice ℕ
      → S
      → Option ((Option Err × MutableAtomicValue) × S)
  try_with_mutex fuel p result new_value s =
      let start_time = v.client.now s in
      let ((locked, err), s1) = p.mutex.acquire_timeout p.max_lock_time s in
      let loop =
        try_loop fuel p.retry_policy start_time new_value result.promoted_tries result s1 in
      elim err [
        | some e ↦
            some ((some e, record result { promoted_time = v.client.since start_time s1 }), s1)
        | none ↦
            if locked
            then elim loop [
              | none ↦ none
              | some ((err1, tries, result1), s2) ↦
                  let (dropped, s3) = p.mutex.release s2 in
                  some (
                    (
                      err1,
                      record result1 {
                        promoted_tries = tries;
                        promoted_time = v.client.since start_time s3;
                      },
                    ),
                    s3,
                  )
            ]
            else some ((none, record result { promoted_time = v.client.since start_time s1 }), s1)
      ]

  -- What TrySet returns for the outcome of a way to try.
  abbrev pub answer :
      (Option Err × MutableAtomicValue) × S → (Option MutableAtomicValue × Option Err) × S
  answer ((none, result), s) = ((some result, none), s)
  answer ((some e, result), s) = ((none, some e), s)

  -- TrySet, after its optimistic tries: with a mutex, if there is one.
  pub promote :
      ℕ
      → Slice ℕ
      → MutableAtomicValue
      → S
      → Option (PromotedToLock S)
      → Option ((Option MutableAtomicValue × Option Err) × S)
  unfolding try_with_mutex
  promote fuel new_value result s none = some ((some result, none), s)
  promote fuel new_value result s (some p) = elim (try_with_mutex fuel p result new_value s) [
    | none ↦ none
    | some outcome ↦ some (answer outcome)
  ]

  pub after_optimistic :
      ℕ
      → Slice ℕ
      → Option ((Option Err × MutableAtomicValue) × S)
      → Option ((Option MutableAtomicValue × Option Err) × S)
  unfolding promote
  after_optimistic fuel new_value none = none
  after_optimistic fuel new_value (some ((some e, result), s)) = some ((none, some e), s)
  after_optimistic fuel new_value (some ((none, result), s)) =
      let promoted = promote fuel new_value result s v.promoted_to_lock in
      if result.succeeded then some ((some result, none), s) else promoted

  pub try_set : ℕ → Slice ℕ → S → Option ((Option MutableAtomicValue × Option Err) × S)
  unfolding try_optimistic after_optimistic
  try_set fuel new_value s =
      after_optimistic fuel new_value (try_optimistic fuel blank_value new_value s)
