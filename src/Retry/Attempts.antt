-- ===== src/Retry/Attempts.antt =====
-- CallWithRetry (retry.go): what all attempts keep, the loop keeps.
use curator_go.Base.{ℕ, zero, suc, ◌+◌, ◌≡◌, subst, Option, none, some, arith, Bool-cases, inl, inr}
use curator_go.Errors.{Err}
use curator_go.Retry.{World, RetryLoop, is_final, ask, call_with_retry}

module _ {S R : Type 0} (w : World S) (proc : S → (R × Option Err) × S) (Q : S → Type 0)
    (P : R × Option Err → Type 0) (k : (s : S) → Q s → P (proc s).0 × Q (proc s).1) where
  -- What every attempt keeps of the state, and what then holds of its result, holds of the result
  -- of a loop without a sleeper.
  pub unasked_keeps :
      (fuel : ℕ) (l : RetryLoop S) (s : S) {r : R × Option Err} {t : S}
      → l.retry_sleeper ≡ none
      → Q s
      → call_with_retry w fuel l proc s ≡ some (r, t)
      → P r × Q t
  unfolding call_with_retry ask
  unasked_keeps zero l s {r} {t} n h e = cc
  unasked_keeps (suc fuel) l s {r} {t} n h e = elim (Bool-cases (is_final (proc s).0.1)) [
    | inl done ↦
        let ends : some (proc s) ≡ some (r, t) = ground arith in
        subst (λ (o : (R × Option Err) × S). P o.0 × Q o.1) (some-injective ends) (k s h)
    | inr again ↦
        unasked_keeps fuel (record l { retry_count = l.retry_count + 1 }) (proc s).1 n (k s h).1
          (ground arith)
  ]
    where
      some-injective : {A : Type 0} {a b : A} → some a ≡ some b → a ≡ b
      some-injective p = cc
