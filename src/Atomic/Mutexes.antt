-- ===== src/Atomic/Mutexes.antt =====
-- tryWithMutex (recipes/atomic.go) and its mutex.
use curator_go.Base.{
  ℕ, zero, suc, ◌+◌, ◌≡◌, subst, ◌∙◌, inl, inr, Option, none, some, arith, Option-cases, Bool-cases,
  if◌then◌else◌, ℤ,
}
use curator_go.Errors.{Err, is_no_node}
use curator_go.Zk.{Slice}
use curator_go.Atomic.{
  PromotedToLock, DistributedAtomicValue, MutableAtomicValue, current_value, try_once, try_loop,
  try_with_mutex,
}
use curator_go.Atomic.Loops.{Outcome, settled_by}

-- What is assumed of the mutex, the node and the policy of a promoted value, where `holds` counts
-- how often the mutex is held: AcquireTimeout takes it once exactly if it reports so, Release
-- gives it up once, and the others leave it alone.
pub record IsCounted {S : Type 0} (v : DistributedAtomicValue S) (p : PromotedToLock S)
    (holds : S → ℕ) : Type 0 where
  pub takes :
      (time : ℤ) (s : S)
      → let ((locked, err), s1) = p.mutex.acquire_timeout time s in
        holds s1 ≡ (elim err [ some e ↦ holds s | none ↦ if locked then holds s + 1 else holds s ])
  pub gives : (s : S) (n : ℕ) → holds s ≡ n + 1 → holds (p.mutex.release s).1 ≡ n
  pub gets : (s : S) → holds (v.client.get_data s).1 ≡ holds s
  pub sets :
      (version : ℤ) (new : Slice ℕ) (s : S) → holds (v.client.set_data version new s).1 ≡ holds s
  pub creates : (new : Slice ℕ) (s : S) → holds (v.client.create new s).1 ≡ holds s
  pub asks :
      (count : ℕ) (elapsed : ℤ) (s : S)
      → holds (p.retry_policy count elapsed v.client.sleeper s).1 ≡ holds s

module _ {S : Type 0} (v : DistributedAtomicValue S) (p : PromotedToLock S) (holds : S → ℕ)
    (law : IsCounted v p holds) where
  try_once-holds :
      (r : MutableAtomicValue) (new : Slice ℕ) (s : S) → holds (try_once v r new s).1 ≡ holds s
  unfolding try_once current_value
  try_once-holds r new s =
      let ((read, version, err), s1) = v.client.get_data s in
      let got = law.gets s in
      elim (Option-cases (v.client.get_data s).0.2) [
        | inl fine ↦ ground (arith, law.sets version new s1)
        | inr (e, failed) ↦ elim (Bool-cases (is_no_node e)) [
          | inl missing ↦ ground (arith, law.creates new s1)
          | inr is_other ↦ ground arith
        ]
      ]

  abbrev Keeps : ℕ → Option (Outcome S) → Type 0
  Keeps n none = Unit
  Keeps n (some (out, s)) = holds s ≡ n

  try_loop-Keeps :
      (fuel : ℕ) (start_time : ℕ) (new : Slice ℕ) (tries : ℕ) (r : MutableAtomicValue) (s : S)
      → Keeps (holds s) (try_loop v fuel p.retry_policy start_time new tries r s)
  unfolding try_loop
  try_loop-Keeps zero start_time new tries r s = tt
  try_loop-Keeps (suc fuel) start_time new tries r s =
      let (t, s1) = try_once v r new s in
      let elapsed = v.client.since start_time s1 in
      let asked = p.retry_policy (tries + 1) elapsed v.client.sleeper s1 in
      let rest = try_loop v fuel p.retry_policy start_time new (tries + 1) t.2 asked.1 in
      let kept = try_once-holds r new s in
      let asking = law.asks (tries + 1) elapsed s1 ∙ kept in
      settled_by v (Keeps (holds s)) t (tries + 1) s1 asked rest (λ e failed. kept)
        (λ fine won. kept)
        (λ again.
          subst (λ n. Keeps n rest) asking
            (try_loop-Keeps fuel start_time new (tries + 1) t.2 asked.1))
        asking

  -- tryWithMutex gives up the mutex exactly if it took it: when it returns, by an error of the
  -- acquisition, without the mutex, by an error of a try, or after any number of tries, the mutex
  -- is held as often as before. The mutex, the node and the policy are as in IsCounted.
  pub try_with_mutex-holds :
      (fuel : ℕ) (r : MutableAtomicValue) (new : Slice ℕ) (s : S)
      {out : Option Err × MutableAtomicValue} {s' : S}
      → try_with_mutex v fuel p r new s ≡ some (out, s')
      → holds s' ≡ holds s
  unfolding try_with_mutex
  try_with_mutex-holds fuel r new s {out} {s'} ended =
      let ((locked, err), s1) = p.mutex.acquire_timeout p.max_lock_time s in
      let taken = law.takes p.max_lock_time s in
      let start_time = v.client.now s in
      let loop = try_loop v fuel p.retry_policy start_time new r.promoted_tries r s1 in
      let kept = try_loop-Keeps fuel start_time new r.promoted_tries r s1 in
      elim (Option-cases (p.mutex.acquire_timeout p.max_lock_time s).0.1) [
        | inr (e, failed) ↦ ground arith
        | inl fine ↦ elim (Bool-cases locked) [
          | inr not_locked ↦ ground arith
          | inl is_locked ↦ elim (Option-cases loop) [
            | inl none_left ↦ ground arith
            | inr (done, ends) ↦
                let same : holds done.1 ≡ holds s1 = subst (Keeps (holds s1)) ends kept in
                ground (arith, law.gives done.1 (holds s))
          ]
        ]
      ]
