-- ===== src/Retry/Loops.antt =====
-- CallWithRetry (retry.go): when the loop ends, and what it asks.
use curator_go.Base.{
  ℕ, ℤ, zero, suc, ◌+◌, ◌≤◌, ◌<◌, ◌≡◌, refl, true, false, Option, none, some, arith, Returns,
  Bool-cases, inl, inr, if◌then◌else◌,
}
use curator_go.Errors.{Err}
use curator_go.Retry.{
  Sleeper, Policy, World, RetryLoop, is_final, ask, new_retry_loop, call_with_retry, SleepingRetry,
  sleeping_allow_retry, new_retry_one_time, retries_disallowed,
}

allowed_below_limit :
    {S : Type 0} (r : SleepingRetry S) (count : ℕ) (elapsed : ℤ) (sleeper : Sleeper S) (s : S)
    → (sleeping_allow_retry r count elapsed sleeper s).0 ≡ true
    → count < r.limit
unfolding sleeping_allow_retry
allowed_below_limit r count elapsed sleeper s h = ground arith

module _ {S R : Type 0} (w : World S) (proc : S → (R × Option Err) × S) where
  -- A loop with no sleeper goes round again, whatever the policy says.
  unasked :
      (fuel : ℕ) (l m : RetryLoop S) (s : S)
      → l.retry_sleeper ≡ none
      → m.retry_sleeper ≡ none
      → call_with_retry w fuel l proc s ≡ call_with_retry w fuel m proc s
  unfolding call_with_retry ask
  unasked zero l m s h k = refl
  unasked (suc fuel) l m s h k = ground (
    arith,
    unasked fuel (record l { retry_count = l.retry_count + 1 })
        (record m { retry_count = m.retry_count + 1 }) (proc s).1 h k,
  )

  -- The loop that newRetryLoop makes never asks its retry policy: with any two policies, and
  -- within any number of rounds, it does the same.
  pub new_retry_loop_ignores_policy :
      (fuel : ℕ) (p q : Policy S) (start s : S)
      → call_with_retry w fuel (new_retry_loop w p start) proc s
        ≡ call_with_retry w fuel (new_retry_loop w q start) proc s
  unfolding new_retry_loop
  new_retry_loop_ignores_policy fuel p q start s =
      unasked fuel (new_retry_loop w p start) (new_retry_loop w q start) s refl refl

  -- The state after some attempts in a row.
  pub after_attempts : ℕ → S → S
  after_attempts zero s = s
  after_attempts (suc k) s = after_attempts k (proc s).1

  -- All of the first `k` attempts fail with an error that is to be retried.
  abbrev pub RetriedFor : ℕ → S → Type 0
  RetriedFor zero s = Unit
  RetriedFor (suc k) s = (is_final (proc s).0.1 ≡ false) × RetriedFor k (proc s).1

  attempts :
      (k fuel : ℕ) (l : RetryLoop S) (s : S)
      → l.retry_sleeper ≡ none
      → k < fuel
      → RetriedFor k s
      → is_final (proc (after_attempts k s)).0.1 ≡ true
      → call_with_retry w fuel l proc s ≡ some (proc (after_attempts k s))
  unfolding call_with_retry ask after_attempts
  attempts k zero l s h f r e = elim f [ ]
  attempts zero (suc fuel) l s h f r e = ground arith
  attempts (suc k) (suc fuel) l s h f r e =
      ground (arith, attempts k fuel (record l { retry_count = l.retry_count + 1 }) (proc s).1 h)

  endless :
      (fuel : ℕ) (l : RetryLoop S) (s : S)
      → l.retry_sleeper ≡ none
      → RetriedFor fuel s
      → call_with_retry w fuel l proc s ≡ none
  unfolding call_with_retry ask
  endless zero l s h r = refl
  endless (suc fuel) l s h r =
      ground (arith, endless fuel (record l { retry_count = l.retry_count + 1 }) (proc s).1 h r.1)

  -- CallWithRetry of a loop that newRetryLoop made returns the result of the first attempt that
  -- succeeds or fails with an error that is not to be retried, whichever the policy is, after as
  -- many attempts as it takes; while all fail with errors to be retried it does not return.
  pub new_retry_loop-returns_first_final :
      (k fuel : ℕ) (p : Policy S) (start s : S)
      → RetriedFor k s
      → ((is_final (proc (after_attempts k s)).0.1 ≡ true)
          → k < fuel
          → call_with_retry w fuel (new_retry_loop w p start) proc s
            ≡ some (proc (after_attempts k s)))
        × (call_with_retry w k (new_retry_loop w p start) proc s ≡ none)
  unfolding new_retry_loop
  new_retry_loop-returns_first_final k fuel p start s r = (
    λ e f. attempts k fuel (new_retry_loop w p start) s refl f r e,
    endless k (new_retry_loop w p start) s refl r,
  )

  ask_below_limit :
      (l : RetryLoop S) (sleeper : Sleeper S) (r : SleepingRetry S) (s : S)
      → l.retry_sleeper ≡ some sleeper
      → l.retry_policy ≡ sleeping_allow_retry r
      → (ask w l s).0 ≡ true
      → l.retry_count < r.limit
  unfolding ask
  ask_below_limit l sleeper r s h k e =
      ground (arith, allowed_below_limit r l.retry_count (w.since l.start_time s) sleeper s)

  -- With a sleeper set and a SleepingRetry as the policy, CallWithRetry returns, however the
  -- attempts fail, and makes no more of them than the limit (and always one): as many rounds of
  -- fuel suffice.
  pub bounded_attempts :
      (fuel : ℕ) (l : RetryLoop S) (sleeper : Sleeper S) (r : SleepingRetry S) (s : S)
      → l.retry_sleeper ≡ some sleeper
      → l.retry_policy ≡ sleeping_allow_retry r
      → r.limit ≤ l.retry_count + fuel
      → 0 < fuel
      → Returns (call_with_retry w fuel l proc s)
  unfolding call_with_retry
  bounded_attempts zero l sleeper r s h k b pos = elim pos [ ]
  bounded_attempts (suc fuel) l sleeper r s h k b pos =
      let counted = record l { retry_count = l.retry_count + 1 } in
      let s1 = (proc s).1 in
      elim (Bool-cases (is_final (proc s).0.1)) [
        | inl done ↦ rw done tt
        | inr failed ↦ elim (Bool-cases (ask w counted s1).0) [
          | inl again ↦
              let below = ask_below_limit counted sleeper r s1 h k again in
              rw failed (
                rw again (
                  bounded_attempts fuel counted sleeper r (ask w counted s1).1 h k (omega arith)
                    (omega arith)))
          | inr enough ↦ rw failed (rw enough tt)
        ]
      ]

  -- A loop with a sleeper and RetryOneTime makes exactly one attempt: it counts before it asks, and
  -- the policy refuses the count 1, so that an error to be retried is returned after one count of a
  -- disallowed retry, and nothing sleeps.
  pub call_with_retry-one_time :
      (fuel : ℕ) (l : RetryLoop S) (sleeper : Sleeper S) (time : ℤ) (s : S)
      → l.retry_sleeper ≡ some sleeper
      → l.retry_policy ≡ sleeping_allow_retry (new_retry_one_time time)
      → l.retry_count ≡ 0
      → let (result, s1) = proc s in
        call_with_retry w (suc fuel) l proc s
        ≡ some (result, if is_final result.1 then s1 else w.add_count retries_disallowed s1)
  unfolding call_with_retry ask sleeping_allow_retry new_retry_one_time
  call_with_retry-one_time fuel l sleeper time s h k z = elim (Bool-cases (is_final (proc s).0.1)) [
    | inl done ↦ rw done refl
    | inr again ↦ ground arith
  ]
