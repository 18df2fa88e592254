-- ===== src/Atomic/Set.antt =====
-- TrySet (recipes/atomic.go): optimistic tries, and tries under a mutex if these fail.
use curator_go.Base.{
  ℕ, ◌≡◌, refl, subst, inl, inr, Bool, true, false, Option, none, some, List, Option-cases,
  Bool-cases, if◌then◌else◌,
}
use curator_go.Errors.{Err}
use curator_go.Zk.{Slice}
use curator_go.Atomic.{
  PromotedToLock, DistributedAtomicValue, MutableAtomicValue, blank_value, answer, try_loop,
  try_optimistic, try_with_mutex, promote, after_optimistic, try_set,
}
use curator_go.Atomic.History.{Content, Grows, Replaced-Grows, Replaced, IsVersioned}
use curator_go.Atomic.Loops.{Wins, try_loop-Wins}

module _ {S : Type 0} (v : DistributedAtomicValue S) (trace : S → List Content) where
  -- The release of the mutex takes nothing from the history of the node.
  abbrev pub IsQuiet : Option (PromotedToLock S) → Type 0
  IsQuiet none = Unit
  IsQuiet (some p) = (s : S) → Grows (trace s) (trace (p.mutex.release s).1)

  abbrev Done : Slice ℕ → MutableAtomicValue → S → Type 0
  Done new r s = r.succeeded ≡ true → Replaced r.pre_value new (trace s) × (r.post_value ≡ new)

  abbrev Tries : Slice ℕ → Option ((Option Err × MutableAtomicValue) × S) → Type 0
  Tries new none = Unit
  Tries new (some ((err, r), s)) = Done new r s

  abbrev Sets : Slice ℕ → Option ((Option MutableAtomicValue × Option Err) × S) → Type 0
  Sets new none = Unit
  Sets new (some ((none, err), s)) = Unit
  Sets new (some ((some r, err), s)) = Done new r s

  answer-Sets :
      (new : Slice ℕ) (o : (Option Err × MutableAtomicValue) × S)
      → Tries new (some o)
      → Sets new (some (answer v o))
  answer-Sets new ((none, r), s) h = h
  answer-Sets new ((some e, r), s) h = tt

  module _ (law : IsVersioned v.client trace) where
    try_optimistic-Tries :
        (fuel : ℕ) (r : MutableAtomicValue) (new : Slice ℕ) (s : S)
        → r.succeeded ≡ false
        → Tries new (try_optimistic v fuel r new s)
    unfolding try_optimistic
    try_optimistic-Tries fuel r new s blank =
        let loop = try_loop v fuel v.retry_policy (v.client.now s) new r.optimistic_tries r s in
        let wins =
          try_loop-Wins v trace law fuel v.retry_policy (v.client.now s) new r.optimistic_tries r s
            blank in
        elim (Option-cases loop) [
          | inl none_left ↦ rw (none_left, try_optimistic) tt
          | inr (((err, tries, r1), s1), ends) ↦
              let won = subst (Wins v trace law new) ends wins in
              rw (ends, try_optimistic) (λ success. ((won success).0, (won success).1))
        ]

    try_with_mutex-Tries :
        (fuel : ℕ) (p : PromotedToLock S) (r : MutableAtomicValue) (new : Slice ℕ) (s : S)
        → IsQuiet (some p)
        → r.succeeded ≡ false
        → Tries new (try_with_mutex v fuel p r new s)
    unfolding try_with_mutex
    try_with_mutex-Tries fuel p r new s quiet blank =
        let ((locked, err), s1) = p.mutex.acquire_timeout p.max_lock_time s in
        let start_time = v.client.now s in
        let loop = try_loop v fuel p.retry_policy start_time new r.promoted_tries r s1 in
        let wins =
          try_loop-Wins v trace law fuel p.retry_policy start_time new r.promoted_tries r s1
            blank in
        elim (Option-cases (p.mutex.acquire_timeout p.max_lock_time s).0.1) [
          | inr (e, failed) ↦ rw (failed, try_with_mutex) (λ success. cc)
          | inl fine ↦ elim (Bool-cases locked) [
            | inr not_locked ↦ rw (fine, try_with_mutex, not_locked) (λ success. cc)
            | inl is_locked ↦ elim (Option-cases loop) [
              | inl none_left ↦ rw (fine, try_with_mutex, is_locked, none_left) tt
              | inr (((err1, tries, r1), s2), ends) ↦
                  let won = subst (Wins v trace law new) ends wins in
                  rw (fine, try_with_mutex, is_locked, ends)
                    (λ success. (
                      Replaced-Grows r1.pre_value new (trace s2) (trace (p.mutex.release s2).1)
                          (won success).0 (quiet s2),
                      (won success).1,
                    ))
            ]
          ]
        ]

    promote-Sets :
        (fuel : ℕ) (new : Slice ℕ) (r : MutableAtomicValue) (s : S) (p : Option (PromotedToLock S))
        → IsQuiet p
        → r.succeeded ≡ false
        → Sets new (promote v fuel new r s p)
    unfolding promote
    promote-Sets fuel new r s none quiet blank = λ success. cc
    promote-Sets fuel new r s (some p) quiet blank =
        elim (Option-cases (try_with_mutex v fuel p r new s)) [
          | inl none_left ↦ rw (none_left, promote) tt
          | inr (outcome, ends) ↦
              rw (ends, promote)
                (answer-Sets new outcome
                  (subst (Tries new) ends (try_with_mutex-Tries fuel p r new s quiet blank)))
        ]

    either :
        (new : Slice ℕ) (b : Bool) (x y : Option ((Option MutableAtomicValue × Option Err) × S))
        → (b ≡ true → Sets new x)
        → (b ≡ false → Sets new y)
        → Sets new (if b then x else y)
    either new true x y h k = h refl
    either new false x y h k = k refl

    after_optimistic-Sets :
        (fuel : ℕ) (new : Slice ℕ) (o : Option ((Option Err × MutableAtomicValue) × S))
        → IsQuiet v.promoted_to_lock
        → Tries new o
        → Sets new (after_optimistic v fuel new o)
    unfolding after_optimistic
    after_optimistic-Sets fuel new none quiet h = tt
    after_optimistic-Sets fuel new (some ((some e, r), s)) quiet h = tt
    after_optimistic-Sets fuel new (some ((none, r), s)) quiet h =
        let promoted = promote v fuel new r s v.promoted_to_lock in
        either new r.succeeded (some ((some r, none), s)) promoted (λ won. h)
          (promote-Sets fuel new r s v.promoted_to_lock quiet)

    -- A TrySet that reports success did set, by an optimistic try or under the mutex: at one moment
    -- the node had the value that the result has as the one before (nil for a missing node), and
    -- after it the new one, which is the value after: right after it, unless the node was deleted in
    -- between, when other values may have been there. Other clients may act at any time, the retry
    -- policies do anything; the server is as in IsVersioned and Release writes nothing.
    pub try_set-Replaced :
        (fuel : ℕ) (new : Slice ℕ) (s : S) {r : MutableAtomicValue} {err : Option Err} {s' : S}
        → IsQuiet v.promoted_to_lock
        → try_set v fuel new s ≡ some ((some r, err), s')
        → r.succeeded ≡ true
        → Replaced r.pre_value new (trace s') × (r.post_value ≡ new)
    unfolding try_set
    try_set-Replaced fuel new s quiet returned success =
        let tries = try_optimistic-Tries fuel blank_value new s refl in
        let sets =
          after_optimistic-Sets fuel new (try_optimistic v fuel blank_value new s) quiet tries in
        subst (Sets new) returned sets success
