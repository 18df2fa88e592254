-- ===== src/Atomic/Tests.antt =====
-- Atomic values over a small server.
use curator_go.Base.{
  ℕ, ◌+◌, ◌-◌, ◌≤◌, ◌≡◌, refl, ap, ◌⊎◌, true, Option, none, some, [], ◌∷◌, arith, ltb, pos, Returns,
  bytes_eq,
}
use curator_go.Errors.{Err}
use curator_go.Zk.{Slice, elements}
use curator_go.Retry.{Policy}
use curator_go.Retry.Policies.{Limits}
use curator_go.Atomic.{
  NodeClient, PromotedToLock, DistributedAtomicValue, MutableAtomicValue, blank_value,
  current_value, force_set, compare_and_set, try_once, try_loop, try_optimistic, try_with_mutex,
  after_optimistic, try_set,
}
use curator_go.Atomic.History.{Content, Wrote, Replaced}
use curator_go.Atomic.Writes.{compare_and_set-Replaced, force_set-Wrote}
use curator_go.Atomic.Limits.{try_optimistic-Returns, try_set-Returns}
use curator_go.Atomic.Set.{try_set-Replaced}
use curator_go.Atomic.Mutexes.{IsCounted, try_with_mutex-holds}
use curator_go.Atomic.Sample.{Node, node, contents, node-IsVersioned}

abbrev two_retries : {S : Type 0} → Policy S
two_retries count elapsed sleeper s = (ltb count 2, s)

two_retries-Limits : {S : Type 0} → Limits {S = S} 2 two_retries
two_retries-Limits k elapsed sleeper s h = ground arith

abbrev shared : DistributedAtomicValue Node
shared = record { client = node; retry_policy = two_retries; promoted_to_lock = none }

abbrev one : Slice ℕ
one = some (1 ∷ [])

abbrev two : Slice ℕ
two = some (2 ∷ [])

-- A swap of the value that is there.
abbrev swapped : MutableAtomicValue
swapped = record blank_value { pre_value = one; post_value = two; succeeded = true }

is_swapped : compare_and_set shared one two (one ∷ []) ≡ ((some swapped, none), two ∷ one ∷ [])
unfolding compare_and_set current_value bytes_eq
is_swapped = refl

compare_and_set-Replaced_example :
    Replaced one two (contents (compare_and_set shared one two (one ∷ [])).1)
    × (elements one ≡ elements one)
    × (two ≡ two)
compare_and_set-Replaced_example =
    compare_and_set-Replaced shared contents node-IsVersioned one two (one ∷ []) swapped
      (ap (λ x. x.0.0) is_swapped) refl

forced : force_set shared two [] ≡ (none, two ∷ [])
unfolding force_set
forced = refl

-- The node is created.
force_set-Wrote_example :
    (before : Content) × Wrote before two (contents (force_set shared two []).1)
force_set-Wrote_example =
    force_set-Wrote shared contents node-IsVersioned two [] (ap (λ x. x.0) forced)

abbrev created : MutableAtomicValue
created = record blank_value { post_value = two; succeeded = true; optimistic_tries = 1 }

is_set : try_set shared 3 two [] ≡ some ((some created, none), two ∷ [])
unfolding try_set after_optimistic try_optimistic try_loop try_once current_value
is_set = refl

try_set-Replaced_example : Replaced none two (contents (two ∷ [])) × (two ≡ two)
try_set-Replaced_example =
    try_set-Replaced shared contents node-IsVersioned 3 two [] {r = created} tt is_set refl

try_optimistic-Returns_example :
    (out : (Option Err × MutableAtomicValue) × Node) × (try_optimistic shared 3 blank_value two []
      ≡ some out)
    × (1 ≤ out.0.1.optimistic_tries)
    × ((out.0.1.optimistic_tries ≡ 1) ⊎ (out.0.1.optimistic_tries ≤ 2))
try_optimistic-Returns_example =
    try_optimistic-Returns shared 2 3 two [] two_retries-Limits (omega arith)

try_set-Returns_example : Returns (try_set shared 3 two [])
try_set-Returns_example =
    try_set-Returns shared 2 0 3 two [] two_retries-Limits tt (omega arith) (omega arith)

-- The node beside a mutex that counts how often it is held.
abbrev locked_node : NodeClient (Node × ℕ)
locked_node = record {
  get_data = λ s. ((node.get_data s.0).0, ((node.get_data s.0).1, s.1));
  set_data = λ version new s.
      ((node.set_data version new s.0).0, ((node.set_data version new s.0).1, s.1));
  create = λ new s. ((node.create new s.0).0, ((node.create new s.0).1, s.1));
  create_default = λ s. ((node.create_default s.0).0, ((node.create_default s.0).1, s.1));
  since = λ start s. pos 0;
  now = λ s. 0;
  sleeper = λ time s. (none, s);
}

abbrev promotion : PromotedToLock (Node × ℕ)
promotion = record {
  max_lock_time = pos 5;
  retry_policy = two_retries;
  mutex = record {
    acquire_timeout = λ time s. ((true, none), (s.0, s.1 + 1));
    release = λ s. (none, (s.0, s.1 - 1));
  };
}

abbrev promoted : DistributedAtomicValue (Node × ℕ)
promoted = record {
  client = locked_node;
  retry_policy = two_retries;
  promoted_to_lock = some promotion;
}

promoted-IsCounted : IsCounted promoted promotion (λ s. s.1)
promoted-IsCounted = record {
  takes = λ time s. refl;
  gives = λ s n e. omega arith;
  gets = λ s. refl;
  sets = λ version new s. refl;
  creates = λ new s. refl;
  asks = λ count elapsed s. refl;
}

abbrev under_lock : MutableAtomicValue
under_lock = record blank_value { post_value = two; succeeded = true; promoted_tries = 1 }

is_locked :
    try_with_mutex promoted 3 promotion blank_value two ([], 0)
    ≡ some ((none, under_lock), (two ∷ [], 0))
unfolding try_with_mutex try_loop try_once current_value
is_locked = refl

try_with_mutex-holds_example : ◌≡◌ {A = ℕ} 0 0
try_with_mutex-holds_example =
    try_with_mutex-holds promoted promotion (λ s. s.1) promoted-IsCounted 3 blank_value two ([], 0)
      is_locked
