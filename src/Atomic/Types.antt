-- ===== src/Atomic/Types.antt =====
-- The data of an atomic value (recipes/atomic.go), and what it uses of the framework, of a mutex and
-- of the clock.
use curator_go.Base.{ℕ, Bool, false, ◌||◌, Option, none, bytes_eq, ℤ}
use curator_go.Errors.{Err, is_no_node, is_node_exists, is_bad_version}
use curator_go.Zk.{Slice, elements}
use curator_go.Retry.{Policy, Sleeper}

-- What the value uses of the framework, for the path of its node: GetData with the version of its
-- stat, SetData, Create with data and with the default data; and the clock and the sleeper of the
-- retry policies. Each request stands for a whole call of its builder, with the retry loop in it,
-- and is taken to return; that loop (Retry) need not, while all its attempts fail with errors that
-- are to be retried.
pub record NodeClient (S : Type 0) : Type 0 where
  pub get_data : S → (Slice ℕ × ℤ × Option Err) × S
  pub set_data : ℤ → Slice ℕ → S → Option Err × S
  pub create : Slice ℕ → S → Option Err × S
  pub create_default : S → Option Err × S
  pub since : ℕ → S → ℤ
  pub now : S → ℕ
  pub sleeper : Sleeper S

-- The InterProcessLock of a value that may be promoted: AcquireTimeout with the longest time to
-- wait, and Release. Both are taken to return, as the requests are; the wait of the lock itself is
-- in Locks, where AcquireTimeout may go round again after its time is over.
pub record InterProcessLock (S : Type 0) : Type 0 where
  pub acquire_timeout : ℤ → S → (Bool × Option Err) × S
  pub release : S → Option Err × S

-- mutableAtomicValue, with the fields of its AtomicStats.
pub record MutableAtomicValue : Type 0 where
  pub pre_value : Slice ℕ
  pub post_value : Slice ℕ
  pub succeeded : Bool
  pub optimistic_tries : ℕ
  pub promoted_tries : ℕ
  pub optimistic_time : ℤ
  pub promoted_time : ℤ

-- PromotedToLock, with the mutex that is made for it.
pub record PromotedToLock (S : Type 0) : Type 0 where
  pub max_lock_time : ℤ
  pub retry_policy : Policy S
  pub mutex : InterProcessLock S

pub record DistributedAtomicValue (S : Type 0) : Type 0 where
  pub client : NodeClient S
  pub retry_policy : Policy S
  pub promoted_to_lock : Option (PromotedToLock S)

-- A declared variable of the type.
abbrev pub blank_value : MutableAtomicValue
blank_value = record {
  pre_value = none;
  post_value = none;
  succeeded = false;
  optimistic_tries = 0;
  promoted_tries = 0;
  optimistic_time = ℤ.pos 0;
  promoted_time = ℤ.pos 0;
}

-- `bytes.Equal`, for which nil is an empty slice.
abbrev pub bytes_equal : Slice ℕ → Slice ℕ → Bool
bytes_equal a b = bytes_eq (elements a) (elements b)

-- The errors after which the value is read again.
abbrev pub is_conflict : Err → Bool
is_conflict e = is_node_exists e || is_bad_version e || is_no_node e
