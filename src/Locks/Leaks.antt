-- ===== src/Locks/Leaks.antt =====
-- What the lock internals (recipes/locks.go) do to the nodes of others, and never do to their own.
use curator_go.Base.{
  ℕ, zero, suc, ◌+◌, ◌≡◌, Bool, Option, some, [], ◌∷◌, arith, length, drop, Bytes, Option-cases,
  Bool-cases, inl, inr, subst,
}
use curator_go.Errors.{Err, is_no_node}
use curator_go.Zk.{Slice}
use curator_go.Path.{join_path}
use curator_go.Locks.{
  PredicateResults, gets_the_lock, Client, LockInternals, get_sorted_children, internal_lock_loop,
  attempt_lock,
}

module _ {S : Type 0} (client : Client S) (P : S → Type 0)
    (lists : (p : Bytes) (s : S) → P s → P (client.get_children p s).1)
    (watches : (p : Bytes) (s : S) → P s → P (client.watch p s)) where
  internal_lock_loop-keeps :
      (fuel : ℕ) (l : LockInternals) (path : Bytes) (s : S) {has : Bool} {t : S}
      → P s
      → internal_lock_loop client fuel l path s ≡ some (has, t)
      → P t
  unfolding internal_lock_loop get_sorted_children
  internal_lock_loop-keeps zero l path s h e = cc
  internal_lock_loop-keeps (suc fuel) l path s {has} {t} h e =
      elim (Bool-cases (client.is_started s)) [
        | inr stopped ↦ let same : s ≡ t = ground arith in subst P same h
        | inl running ↦ elim (Option-cases (client.get_children l.base_path s).0.1) [
          | inr (err, failed) ↦
              let same : (client.get_children l.base_path s).1 ≡ t = ground arith in
              subst P same (lists l.base_path s h)
          | inl listed ↦ elim (Option-cases (decision s)) [
            | inl missing ↦
                let same : (client.get_children l.base_path s).1 ≡ t = ground arith in
                subst P same (lists l.base_path s h)
            | inr (r, found) ↦ elim (Bool-cases r.gets_the_lock) [
              | inl ours ↦
                  let same : (client.get_children l.base_path s).1 ≡ t = ground arith in
                  subst P same (lists l.base_path s h)
              | inr others ↦
                  internal_lock_loop-keeps fuel l path
                    (client.watch (join_path l.base_path (r.path_to_watch ∷ []))
                      (client.get_children l.base_path s).1)
                    {has = has} {t = t} (watches _ _ (lists l.base_path s h)) (ground arith)
            ]
          ]
        ]
      ]
    where
      decision : S → Option PredicateResults
      decision u =
          gets_the_lock (get_sorted_children client l u).0.0 (drop (length l.base_path + 1) path)
            l.max_leases

  -- Whatever creating lock nodes, listing children, watching and asking the retry policy keep,
  -- an attempt to lock keeps, with whichever result it ends: the deletion of a node is not among
  -- what it does, also where it made a node and did not get the lock.
  pub attempt_lock-keeps :
      ((p : Bytes) (payload : Slice ℕ) (s : S) → P s → P (client.creates_the_lock p payload s).1)
      → ((n : ℕ) (s : S) → P s → P (client.allow_retry n s).1)
      → (rounds fuel : ℕ) (l : LockInternals) (payload : Slice ℕ) (count : ℕ) (s : S)
        {r : Bytes × Option Err} {t : S}
      → P s
      → attempt_lock client rounds fuel l payload count s ≡ some (r, t)
      → P t
  unfolding attempt_lock
  attempt_lock-keeps creates allows rounds zero l payload count s h e = cc
  attempt_lock-keeps creates allows rounds (suc fuel) l payload count s {r} {t} h e =
      let s1 = (client.creates_the_lock l.lock_path payload s).1 in
      let made : P s1 = creates l.lock_path payload s h in
      let path = (client.creates_the_lock l.lock_path payload s).0.0 in
      elim (Option-cases (client.creates_the_lock l.lock_path payload s).0.1) [
        | inl fine ↦ elim (Option-cases (internal_lock_loop client rounds l path s1)) [
          | inl out ↦ absurd (ground arith)
          | inr (done, e1) ↦
              let kept : P done.1 =
                internal_lock_loop-keeps rounds l path s1 {has = done.0} {t = done.1} made e1 in
              let same : done.1 ≡ t = ground arith in subst P same kept
        ]
        | inr (err, failed) ↦ elim (Bool-cases (is_no_node err)) [
          | inr other ↦ let same : s1 ≡ t = ground arith in subst P same made
          | inl gone ↦
              let asked = allows (count + 1) s1 made in
              elim (Bool-cases (client.allow_retry (count + 1) s1).0) [
                | inl again ↦
                    attempt_lock-keeps creates allows rounds fuel l payload (count + 1)
                      (client.allow_retry (count + 1) s1).1 {r = r} {t = t} asked (ground arith)
                | inr enough ↦
                    let same : (client.allow_retry (count + 1) s1).1 ≡ t = ground arith in
                    subst P same asked
              ]
        ]
      ]
