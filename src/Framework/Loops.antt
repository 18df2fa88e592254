-- ===== src/Framework/Loops.antt =====
-- What a builder's retry loop (retry.go) keeps and what its result is like, and the path that it
-- is given (namespace.go).
use curator_go.Base.{ℕ, ◌≡◌, refl, Option, none, some, arith, Option-cases, inl, inr, Bytes}
use curator_go.Errors.{Err}
use curator_go.Retry.{new_retry_loop, call_with_retry}
use curator_go.Retry.Attempts.{unasked_keeps}
use curator_go.Namespace.{fix_for_namespace}
use curator_go.Framework.{Framework, Session, with_conn, retried, fixed}

module _ {S A T R : Type 0} (f : Framework S A T) (nothing : R) (attempt : S → (R × Option Err) × S)
    (Q : S → Type 0) (P : R × Option Err → Type 0) (connects : (s : S) → Q s → Q (f.connect s).1)
    (fails : (s : S) (e : Err) → Q s → (f.connect s).0 ≡ some e → P (nothing, some e))
    (attempts : (s : S) → Q s → P (attempt s).0 × Q (attempt s).1) where
  with_conn-keeps :
      (s : S) → Q s → P (with_conn f nothing attempt s).0 × Q (with_conn f nothing attempt s).1
  unfolding with_conn
  with_conn-keeps s h =
      go (f.connect s).0 (f.connect s).1 (λ e failed. fails s e h failed) (connects s h)
    where
      go :
          (err : Option Err) (t : S)
          → ((e : Err) → err ≡ some e → P (nothing, some e))
          → Q t
          → let r : (R × Option Err) × S = elim err [
            | some e ↦ ((nothing, some e), t)
            | none ↦ attempt t
          ] in
            P r.0 × Q r.1
      go none t k q = attempts t q
      go (some e) t k q = (k e refl, q)

  -- What the connection and every attempt keep, a builder's loop keeps, and its result is like
  -- those of the attempts, or that of a lost connection.
  pub retried_keeps :
      (fuel : ℕ) (s : Session S) {r : R × Option Err} {t : Session S}
      → Q s.server
      → retried f fuel nothing attempt s ≡ some (r, t)
      → P r × Q t.server
  unfolding retried new_retry_loop
  retried_keeps fuel s {r} {t} h e = elim (Option-cases (loop s.server)) [
    | inl out ↦ cc
    | inr (got, e') ↦
        let kept =
          unasked_keeps f.world (with_conn f nothing attempt) Q P with_conn-keeps fuel
            (new_retry_loop f.world f.retry_policy s.server) s.server {r = got.0} {t = got.1} refl h
            e' in
        ground arith
  ]
    where
      loop : S → Option ((R × Option Err) × S)
      loop u =
          call_with_retry f.world {R = R} fuel (new_retry_loop f.world f.retry_policy u)
            (with_conn f nothing attempt) u

-- fixForNamespace gives the path with the namespace in front, whatever Ensure does.
pub fixed-path :
    {S A T : Type 0} (f : Framework S A T) (fuel : ℕ) (path : Bytes) (s : Session S)
    {adjusted : Bytes} {t : Session S}
    → fixed f fuel path s ≡ some (adjusted, t)
    → adjusted ≡ fix_for_namespace f.namespace.namespace path
unfolding fixed
fixed-path f fuel path s e = ground arith
