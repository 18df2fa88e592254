-- ===== src/Atomic/Limits.antt =====
-- TrySet (recipes/atomic.go) under retry policies that have limits.
use curator_go.Base.{
  ℕ, ◌≤◌, ◌<◌, ◌≡◌, refl, subst, inl, inr, ◌⊎◌, Bool, true, false, Option, none, some, arith,
  Option-cases, Bool-cases, if◌then◌else◌, Returns,
}
use curator_go.Errors.{Err}
use curator_go.Zk.{Slice}
use curator_go.Retry.Policies.{Limits}
use curator_go.Atomic.{
  PromotedToLock, DistributedAtomicValue, MutableAtomicValue, blank_value, try_optimistic,
  try_with_mutex, promote, after_optimistic, try_set,
}
use curator_go.Atomic.Loops.{try_loop-Ends}

-- The policy under the mutex, if there is one.
abbrev pub PromotedLimits : {S : Type 0} → ℕ → Option (PromotedToLock S) → Type 0
PromotedLimits m none = Unit
PromotedLimits m (some p) = Limits m p.retry_policy

module _ {S : Type 0} (v : DistributedAtomicValue S) where
  returned : {R : Type 0} (o : Option R) {r : R} → o ≡ some r → Returns o
  returned o e = rw e tt

  -- tryOptimistic tries once, and again as long as its policy allows: if the policy allows no retry
  -- once n have been made, it ends with at least one try and, beyond the first, at most n of them.
  pub try_optimistic-Returns :
      (n fuel : ℕ) (new : Slice ℕ) (s : S)
      → Limits n v.retry_policy
      → n < fuel
      → (out : (Option Err × MutableAtomicValue) × S) × (try_optimistic v fuel blank_value new s
          ≡ some out)
        × (1 ≤ out.0.1.optimistic_tries)
        × ((out.0.1.optimistic_tries ≡ 1) ⊎ (out.0.1.optimistic_tries ≤ n))
  unfolding try_optimistic
  try_optimistic-Returns n fuel new s limits enough =
      let start_time = v.client.now s in
      let (((err, tries, r), s1), ends, more, few) =
        try_loop-Ends v n fuel v.retry_policy start_time new 0 blank_value s limits (omega arith)
          (omega arith) in
      (
        (
          (
            err,
            record r { optimistic_tries = tries; optimistic_time = v.client.since start_time s1 },
          ),
          s1,
        ),
        rw (ends, try_optimistic) refl,
        more,
        few,
      )

  try_with_mutex-Returns :
      (m fuel : ℕ) (p : PromotedToLock S) (r : MutableAtomicValue) (new : Slice ℕ) (s : S)
      → Limits m p.retry_policy
      → m < fuel
      → Returns (try_with_mutex v fuel p r new s)
  unfolding try_with_mutex
  try_with_mutex-Returns m fuel p r new s limits enough =
      let ((locked, err), s1) = p.mutex.acquire_timeout p.max_lock_time s in
      let start_time = v.client.now s in
      let (out, ends, more, few) =
        try_loop-Ends v m fuel p.retry_policy start_time new r.promoted_tries r s1 limits
          (omega arith) (omega arith) in
      elim (Option-cases (p.mutex.acquire_timeout p.max_lock_time s).0.1) [
        | inr (e, failed) ↦ rw (failed, try_with_mutex) tt
        | inl fine ↦ elim (Bool-cases locked) [
          | inr not_locked ↦ rw (fine, try_with_mutex, not_locked) tt
          | inl is_locked ↦ rw (fine, try_with_mutex, is_locked, ends) tt
        ]
      ]

  promote-Returns :
      (m fuel : ℕ) (p : Option (PromotedToLock S)) (r : MutableAtomicValue) (new : Slice ℕ) (s : S)
      → PromotedLimits m p
      → m < fuel
      → Returns (promote v fuel new r s p)
  unfolding promote
  promote-Returns m fuel none r new s limits enough = tt
  promote-Returns m fuel (some p) r new s limits enough =
      elim (Option-cases (try_with_mutex v fuel p r new s)) [
        | inl none_left ↦
            absurd (subst Returns none_left (try_with_mutex-Returns m fuel p r new s limits enough))
        | inr (outcome, ends) ↦ rw (ends, promote) tt
      ]

  after_optimistic-Returns :
      (m fuel : ℕ) (new : Slice ℕ) (out : (Option Err × MutableAtomicValue) × S)
      → PromotedLimits m v.promoted_to_lock
      → m < fuel
      → Returns (after_optimistic v fuel new (some out))
  unfolding after_optimistic
  after_optimistic-Returns m fuel new ((some e, r), s) limits enough = tt
  after_optimistic-Returns m fuel new ((none, r), s) limits enough =
      either r.succeeded (some ((some r, none), s)) (promote v fuel new r s v.promoted_to_lock) tt
        (promote-Returns m fuel v.promoted_to_lock r new s limits enough)
    where
      either :
          {R : Type 0} (b : Bool) (x y : Option R)
          → Returns x
          → Returns y
          → Returns (if b then x else y)
      either true x y h k = h
      either false x y h k = k

  -- The loops of TrySet end, whatever its requests and the mutex answer, if its policy allows no
  -- retry once n have been made, and the one under the mutex none once m have: fuel beyond n and m
  -- is enough. The requests for the node and AcquireTimeout are taken to return, each time.
  pub try_set-Returns :
      (n m fuel : ℕ) (new : Slice ℕ) (s : S)
      → Limits n v.retry_policy
      → PromotedLimits m v.promoted_to_lock
      → n < fuel
      → m < fuel
      → Returns (try_set v fuel new s)
  unfolding try_set
  try_set-Returns n m fuel new s limits promoted_limits enough enough_promoted =
      let (out, ends, more, few) = try_optimistic-Returns n fuel new s limits enough in
      rw (ends, try_set) (after_optimistic-Returns m fuel new out promoted_limits enough_promoted)
