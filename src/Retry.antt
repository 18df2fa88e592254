-- ===== src/Retry.antt =====
-- retry.go: the retry loop and the retry policies. `S` is the state of the world: the server, the
-- clock, the random numbers and the tracer's counters. A policy may change it by sleeping.
pub mod Loops
pub mod Policies
pub mod Attempts
mod Tests
use curator_go.Base.{
  ℕ, zero, suc, ◌+◌, ◌^◌, Bool, true, false, ◌||◌, not, Option, none, some, ltb, leb, if◌then◌else◌,
  ℤ, pos, ltb_ℤ, mul_int64,
}
use curator_go.Errors.{Err, zk, net, session_expired, session_moved}

-- RetrySleeper.SleepFor.
abbrev pub Sleeper : Type 0 → Type 0
Sleeper S = ℤ → S → Option Err × S

-- RetryPolicy.AllowRetry.
abbrev pub Policy : Type 0 → Type 0
Policy S = ℕ → ℤ → Sleeper S → S → Bool × S

-- The counters that the loop adds to.
pub data Counter : Type 0 where
  retries_allowed retries_disallowed : Counter

-- What the loop uses of the world: the clock and the tracer.
pub record World (S : Type 0) : Type 0 where
  pub since : ℕ → S → ℤ
  pub now : S → ℕ
  pub add_count : Counter → S → S

pub record RetryLoop (S : Type 0) : Type 0 where
  pub retry_count : ℕ
  pub start_time : ℕ
  pub retry_policy : Policy S
  pub retry_sleeper : Option (Sleeper S)

-- `retryLoop.ShouldRetry`.
unfoldable pub should_retry : Err → Bool
should_retry (zk session_expired) = true
should_retry (zk session_moved) = true
should_retry (net timeout temporary) = timeout || temporary
should_retry _ = false

-- `err == nil || !l.ShouldRetry(err)`.
unfoldable pub is_final : Option Err → Bool
unfolding should_retry
is_final none = true
is_final (some e) = not (should_retry e)

module _ {S : Type 0} (w : World S) where
  -- newRetryLoop: no sleeper is set.
  unfoldable pub new_retry_loop : Policy S → S → RetryLoop S
  new_retry_loop policy s = record {
    retry_count = 0;
    start_time = w.now s;
    retry_policy = policy;
    retry_sleeper = none;
  }

  -- What follows a failed attempt, after the count: `true` to go round again. Without a sleeper
  -- the policy is not asked.
  pub ask : RetryLoop S → S → Bool × S
  ask l s = elim (l.retry_sleeper) [
    | none ↦ (true, s)
    | some sleeper ↦
        let (allowed, s1) = l.retry_policy l.retry_count (w.since l.start_time s) sleeper s in
        if allowed
        then (true, w.add_count retries_allowed s1)
        else (false, w.add_count retries_disallowed s1)
  ]

  -- CallWithRetry. The loop has no bound of its own: `none` means that the fuel ran out.
  unfoldable pub call_with_retry :
      {R : Type 0}
      → ℕ
      → RetryLoop S
      → (S → (R × Option Err) × S)
      → S
      → Option ((R × Option Err) × S)
  unfolding is_final
  call_with_retry zero l proc s = none
  call_with_retry (suc fuel) l proc s =
      let (result, s1) = proc s in
      let counted = record l { retry_count = l.retry_count + 1 } in
      let (again, s2) = ask counted s1 in
      let rest = call_with_retry fuel counted proc s2 in
      if is_final result.1 then some (result, s1) else (if again then rest else some (result, s2))

-- SleepingRetry; a negative limit allows nothing, as 0 does.
pub record SleepingRetry (S : Type 0) : Type 0 where
  pub limit : ℕ
  pub get_sleep_time : ℕ → ℤ → S → ℤ × S

pub sleeping_allow_retry : {S : Type 0} → SleepingRetry S → Policy S
sleeping_allow_retry r count elapsed sleeper s =
    if ltb count r.limit
    then (let (time, s1) = r.get_sleep_time count elapsed s in
        let (err, s2) = sleeper time s1 in (elim err [ none ↦ true | some e ↦ false ], s2))
    else (false, s)

pub new_retry_n_times : {S : Type 0} → ℕ → ℤ → SleepingRetry S
new_retry_n_times n sleep = record { limit = n; get_sleep_time = λ count elapsed s. (sleep, s) }

pub new_retry_one_time : {S : Type 0} → ℤ → SleepingRetry S
unfolding new_retry_n_times
new_retry_one_time sleep = new_retry_n_times 1 sleep

abbrev pub max_retries_limit : ℕ
max_retries_limit = 29

-- `random n` is `rand.Int63n(n)`.
pub new_exponential_backoff_retry : {S : Type 0} → (ℕ → S → ℕ × S) → ℤ → ℕ → ℤ → SleepingRetry S
new_exponential_backoff_retry random base max_retries max_sleep = record {
  limit = if ltb max_retries_limit max_retries then max_retries_limit else max_retries;
  get_sleep_time = λ count elapsed s.
      let (r, s1) = random (2 ^ count) s in
      let time = mul_int64 base r in (if ltb_ℤ max_sleep time then max_sleep else time, s1);
}

pub record RetryUntilElapsed (S : Type 0) : Type 0 where
  pub sleeping : SleepingRetry S
  pub max_elapsed_time : ℤ

abbrev max_int64 : ℕ
max_int64 = 9223372036854775807

pub new_retry_until_elapsed : {S : Type 0} → ℤ → ℤ → RetryUntilElapsed S
new_retry_until_elapsed max_elapsed sleep = record {
  sleeping = record { limit = max_int64; get_sleep_time = λ count elapsed s. (sleep, s) };
  max_elapsed_time = max_elapsed;
}

pub until_elapsed_allow_retry : {S : Type 0} → RetryUntilElapsed S → Policy S
unfolding sleeping_allow_retry
until_elapsed_allow_retry r count elapsed sleeper s =
    if ltb_ℤ elapsed r.max_elapsed_time
    then sleeping_allow_retry r.sleeping count elapsed sleeper s
    else (false, s)
