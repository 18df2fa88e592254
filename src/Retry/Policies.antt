-- ===== src/Retry/Policies.antt =====
-- The retry policies (retry.go).
use curator_go.Base.{
  ℕ, ◌≤◌, ◌<◌, ◌≡◌, true, false, none, arith, if◌then◌else◌, ℤ, ◌≤ℤ◌, ltb_ℤ, mul_int64, ◌^◌,
}
use curator_go.Retry.{
  Policy, Sleeper, SleepingRetry, sleeping_allow_retry, max_retries_limit,
  new_exponential_backoff_retry, RetryUntilElapsed, until_elapsed_allow_retry,
}

-- SleepingRetry allows exactly the retries below its limit whose sleep succeeds; above the limit
-- it neither sleeps nor changes anything.
pub sleeping_allow_retry_lem :
    {S : Type 0} (r : SleepingRetry S) (count : ℕ) (elapsed : ℤ) (sleeper : Sleeper S) (s : S)
    → let (time, s1) = r.get_sleep_time count elapsed s in
      ((sleeping_allow_retry r count elapsed sleeper s).0 ≡ true
        → (count < r.limit) × ((sleeper time s1).0 ≡ none))
      × (count < r.limit → (sleeping_allow_retry r count elapsed sleeper s).1 ≡ (sleeper time s1).1)
      × (r.limit ≤ count → sleeping_allow_retry r count elapsed sleeper s ≡ (false, s))
unfolding sleeping_allow_retry
sleeping_allow_retry_lem r count elapsed sleeper s = ground arith

capped_le : (a max : ℤ) → (if ltb_ℤ max a then max else a) ≤ℤ max
capped_le a max = ground arith

-- An exponential backoff sleeps no longer than its maximum, also where the product of the base
-- time and the random factor wraps, and its limit is at most MAX_RETRIES_LIMIT.
pub exponential_bounds :
    {S : Type 0} (random : ℕ → S → ℕ × S) (base : ℤ) (retries : ℕ) (max : ℤ) (count : ℕ)
    (elapsed : ℤ) (s : S)
    → let r = new_exponential_backoff_retry random base retries max in
      ((r.get_sleep_time count elapsed s).0 ≤ℤ max)
      × (r.limit ≤ max_retries_limit)
      × (r.limit ≤ retries)
unfolding new_exponential_backoff_retry
exponential_bounds random base retries max count elapsed s =
    (capped_le (mul_int64 base (random (2 ^ count) s).0) max, ground arith, ground arith)

-- RetryUntilElapsed allows a retry only before its time is over.
pub until_elapsed_allow_retry_lem :
    {S : Type 0} (r : RetryUntilElapsed S) (count : ℕ) (elapsed : ℤ) (sleeper : Sleeper S) (s : S)
    → (r.max_elapsed_time ≤ℤ elapsed
        → until_elapsed_allow_retry r count elapsed sleeper s ≡ (false, s))
unfolding until_elapsed_allow_retry
until_elapsed_allow_retry_lem r count elapsed sleeper s h = ground arith

-- The policy allows no retry once n have been made.
abbrev pub Limits : {S : Type 0} → ℕ → Policy S → Type 0
Limits {S} n policy =
    (k : ℕ) (elapsed : ℤ) (sleeper : Sleeper S) (s : S)
    → n ≤ k
    → (policy k elapsed sleeper s).0 ≡ false

pub sleeping-Limits : {S : Type 0} (p : SleepingRetry S) → Limits p.limit (sleeping_allow_retry p)
unfolding sleeping_allow_retry
sleeping-Limits p k elapsed sleeper s h = ground arith
