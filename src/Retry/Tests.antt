-- ===== src/Retry/Tests.antt =====
-- retry.go with a world that counts attempts: its state is their number, which is also the time.
use curator_go.Base.{
  ℕ, ◌+◌, ◌-◌, ◌<◌, ◌≡◌, refl, true, false, Option, none, some, arith, ltb, if◌then◌else◌, pos,
  Returns,
}
use curator_go.Errors.{Err, zk, session_expired}
use curator_go.Retry.{
  Sleeper, Policy, World, RetryLoop, SleepingRetry, is_final, should_retry, new_retry_loop,
  call_with_retry, sleeping_allow_retry, new_retry_one_time,
}
use curator_go.Retry.Loops.{
  RetriedFor, after_attempts, new_retry_loop-returns_first_final, bounded_attempts,
  call_with_retry-one_time,
}

abbrev counting : World ℕ
counting = record { since = λ start s. pos (s - start); now = λ s. s; add_count = λ c s. s }

abbrev no_sleep : Sleeper ℕ
no_sleep time s = (none, s)

-- Two attempts fail with an expired session, and the third succeeds.
abbrev third_time : ℕ → (ℕ × Option Err) × ℕ
third_time s = ((s, if ltb s 2 then some (zk session_expired) else none), s + 1)

abbrev always_expired : ℕ → (ℕ × Option Err) × ℕ
always_expired s = ((s, some (zk session_expired)), s + 1)

abbrev thrice : SleepingRetry ℕ
thrice = record { limit = 3; get_sleep_time = λ count elapsed s. (pos 5, s) }

abbrev never : Policy ℕ
never count elapsed sleeper s = (false, s)

two_retried : RetriedFor counting third_time 2 0
unfolding is_final should_retry
two_retried = (refl, (refl, tt))

new_retry_loop-returns_first_final_example :
    ((is_final (third_time (after_attempts counting third_time 2 0)).0.1 ≡ true)
      → 2 < 3
      → call_with_retry counting 3 (new_retry_loop counting never 0) third_time 0
        ≡ some (third_time (after_attempts counting third_time 2 0)))
    × (call_with_retry counting 2 (new_retry_loop counting never 0) third_time 0 ≡ none)
new_retry_loop-returns_first_final_example =
    new_retry_loop-returns_first_final counting third_time 2 3 never 0 0 two_retried

abbrev sleeping_loop : RetryLoop ℕ
sleeping_loop = record {
  retry_count = 0;
  start_time = 0;
  retry_policy = sleeping_allow_retry thrice;
  retry_sleeper = some no_sleep;
}

bounded_attempts_example : Returns (call_with_retry counting 3 sleeping_loop always_expired 0)
bounded_attempts_example =
    bounded_attempts counting always_expired 3 sleeping_loop no_sleep thrice 0 refl refl
      (omega arith) (omega arith)

abbrev once_loop : RetryLoop ℕ
once_loop = record {
  retry_count = 0;
  start_time = 0;
  retry_policy = sleeping_allow_retry (new_retry_one_time (pos 9));
  retry_sleeper = some no_sleep;
}

call_with_retry-one_time_example :
    call_with_retry counting 3 once_loop always_expired 0 ≡ some ((0, some (zk session_expired)), 1)
unfolding is_final should_retry
call_with_retry-one_time_example =
    call_with_retry-one_time counting always_expired 2 once_loop no_sleep (pos 9) 0 refl refl refl

abbrev small : ℕ → ℕ → ℕ × ℕ
small n s = (n - 1, s)
