-- ===== src/Atomic/Loops.antt =====
-- The loops of tryOptimistic and tryWithMutex (recipes/atomic.go): that they end, and what they
-- have done when they succeed.
use curator_go.Base.{
  ℕ, zero, suc, ◌+◌, ◌≤◌, ◌<◌, ◌≡◌, refl, ◌∙◌, ◌⊎◌, inl, inr, Bool, true, false, Option, none, some,
  List, arith, Bool-cases, ltb,
}
use curator_go.Errors.{Err}
use curator_go.Zk.{Slice}
use curator_go.Retry.{Policy}
use curator_go.Retry.Policies.{Limits}
use curator_go.Atomic.{DistributedAtomicValue, MutableAtomicValue, try_once, settled, try_loop}
use curator_go.Atomic.Tries.{try_once-succeeded}
use curator_go.Atomic.History.{Content, Replaced, IsVersioned, try_once-Succeeds}

-- The outcome of a loop: its error, its tries, the result and the state.
abbrev pub Outcome : Type 0 → Type 0
Outcome S = (Option Err × ℕ × MutableAtomicValue) × S

-- A loop that ends within some tries more than it started with.
abbrev pub Ends : {S : Type 0} → ℕ → ℕ → Option (Outcome S) → Type 0
Ends {S} n tries o =
    (out : Outcome S) × (o ≡ some out)
    × (suc tries ≤ out.0.1)
    × ((out.0.1 ≡ suc tries) ⊎ (out.0.1 ≤ n))

module _ {S : Type 0} (v : DistributedAtomicValue S) where
  -- What holds of a round in each of the four ways that it goes.
  pub settled_by :
      (P : Option (Outcome S) → Type 0) (t : Bool × Option Err × MutableAtomicValue) (tries : ℕ)
      (s : S) (asked : Bool × S) (rest : Option (Outcome S))
      → ((e : Err) → t.1 ≡ some e → P (some ((some e, tries, t.2), s)))
      → (t.1 ≡ none → t.0 ≡ true → P (some ((none, tries, record t.2 { succeeded = true }), s)))
      → (asked.0 ≡ true → P rest)
      → P (some ((none, tries, t.2), asked.1))
      → P (settled v t tries s asked rest)
  settled_by P (success, some e, r) tries s asked rest fails wins again stops = fails e refl
  settled_by P (true, none, r) tries s asked rest fails wins again stops = wins refl refl
  settled_by P (false, none, r) tries s (true, s1) rest fails wins again stops = again refl
  settled_by P (false, none, r) tries s (false, s1) rest fails wins again stops = stops

  -- A round that ends the loop, and one more before a loop that ends.
  stops_here :
      (n tries : ℕ) (err : Option Err) (r : MutableAtomicValue) (s : S)
      → Ends n tries (some ((err, tries + 1, r), s))
  stops_here n tries err r s = (((err, tries + 1, r), s), refl, omega arith, inl (omega arith))

  stops_later :
      (n tries : ℕ) (o : Option (Outcome S)) → tries + 1 < n → Ends n (tries + 1) o → Ends n tries o
  stops_later n tries o h (out, same, more, few) = (out, same, omega (arith, more), inr (below few))
    where
      below : (out.0.1 ≡ suc (tries + 1)) ⊎ (out.0.1 ≤ n) → out.0.1 ≤ n
      below (inl e) = omega arith
      below (inr h') = h'

  pub try_loop-Ends :
      (n fuel : ℕ) (policy : Policy S) (start_time : ℕ) (new : Slice ℕ) (tries : ℕ)
      (r : MutableAtomicValue) (s : S)
      → Limits n policy
      → n < tries + fuel
      → 0 < fuel
      → Ends n tries (try_loop v fuel policy start_time new tries r s)
  unfolding try_loop
  try_loop-Ends n zero policy start_time new tries r s limits enough some_fuel =
      absurd (omega arith)
  try_loop-Ends n (suc fuel) policy start_time new tries r s limits enough some_fuel =
      let (t, s1) = try_once v r new s in
      let elapsed = v.client.since start_time s1 in
      let asked = policy (tries + 1) elapsed v.client.sleeper s1 in
      let rest = try_loop v fuel policy start_time new (tries + 1) t.2 asked.1 in
      settled_by (Ends n tries) t (tries + 1) s1 asked rest
        (λ e failed. stops_here n tries (some e) t.2 s1)
        (λ fine success. stops_here n tries none (record t.2 { succeeded = true }) s1)
        (λ again. elim (Bool-cases (ltb (tries + 1) n)) [
          | inl more ↦ stops_later n tries rest (ground arith) (
              try_loop-Ends n fuel policy start_time new (tries + 1) t.2 asked.1 limits
                (omega arith) (ground arith))
          | inr full ↦
              let refused = limits (tries + 1) elapsed v.client.sleeper s1 (ground arith) in
              absurd cc
        ])
        (stops_here n tries none t.2 asked.1)

  module _ (trace : S → List Content) (law : IsVersioned v.client trace) where
    -- The outcome of a loop that may have succeeded.
    abbrev pub Wins : Slice ℕ → Option (Outcome S) → Type 0
    Wins new none = Unit
    Wins new (some ((err, tries, r), s)) =
        r.succeeded ≡ true
        → Replaced r.pre_value new (trace s) × (r.post_value ≡ new) × (err ≡ none)

    pub try_loop-Wins :
        (fuel : ℕ) (policy : Policy S) (start_time : ℕ) (new : Slice ℕ) (tries : ℕ)
        (r : MutableAtomicValue) (s : S)
        → r.succeeded ≡ false
        → Wins new (try_loop v fuel policy start_time new tries r s)
    unfolding try_loop
    try_loop-Wins zero policy start_time new tries r s blank = tt
    try_loop-Wins (suc fuel) policy start_time new tries r s blank =
        let (t, s1) = try_once v r new s in
        let asked = policy (tries + 1) (v.client.since start_time s1) v.client.sleeper s1 in
        let rest = try_loop v fuel policy start_time new (tries + 1) t.2 asked.1 in
        let still : t.2.succeeded ≡ false = try_once-succeeded v r new s ∙ blank in
        settled_by (Wins new) t (tries + 1) s1 asked rest (λ e failed success. cc)
          (λ fine won success.
            let (write, post) = try_once-Succeeds v trace law r new s won in (write, post, refl))
          (λ again. try_loop-Wins fuel policy start_time new (tries + 1) t.2 asked.1 still)
          (λ success. cc)
