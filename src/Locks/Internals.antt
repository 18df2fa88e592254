-- ===== src/Locks/Internals.antt =====
-- The lock internals (recipes/locks.go): when the lock is ours, and what is never deleted.
use curator_go.Base.{
  ℕ, zero, suc, ◌+◌, ◌≡◌, true, Option, none, some, [], ◌∷◌, arith, length, drop, Bytes,
  Option-cases, Bool-cases, inl, inr,
}
use curator_go.Path.{join_path}
use curator_go.Locks.{
  PredicateResults, gets_the_lock, Client, LockInternals, get_sorted_children, internal_lock_loop,
}

module _ {S : Type 0} (client : Client S) where
  -- The lock is ours only if a listing of the children gave it to our node.
  pub data Granted (l : LockInternals) (path : Bytes) (t : S) : Type 0 where
    granted :
        (s : S) (r : PredicateResults)
        → (get_sorted_children client l s).0.1 ≡ none
        → (get_sorted_children client l s).1 ≡ t
        → gets_the_lock
            (get_sorted_children client l s).0.0
            (drop (length l.base_path + 1) path)
            l.max_leases
          ≡ some r
        → r.gets_the_lock ≡ true
        → Granted l path t

  -- internalLockLoop reports the lock as ours only if the last listing of the children succeeded
  -- and gave the lock to our node.
  pub internal_lock_loop-Granted :
      (fuel : ℕ) (l : LockInternals) (path : Bytes) (s t : S)
      → internal_lock_loop client fuel l path s ≡ some (true, t)
      → Granted l path t
  unfolding internal_lock_loop
  internal_lock_loop-Granted zero l path s t e = cc
  internal_lock_loop-Granted (suc fuel) l path s t e = elim (Bool-cases (client.is_started s)) [
    | inr stopped ↦ absurd (ground arith)
    | inl running ↦ elim (Option-cases (get_sorted_children client l s).0.1) [
      | inr (err, failed) ↦ absurd (ground arith)
      | inl listed ↦ elim (Option-cases (decision s)) [
        | inl missing ↦ absurd (ground arith)
        | inr (r, found) ↦ elim (Bool-cases r.gets_the_lock) [
          | inl ours ↦ granted s r listed (ground arith) found ours
          | inr others ↦
              internal_lock_loop-Granted fuel l path
                (client.watch (join_path l.base_path (r.path_to_watch ∷ []))
                  (get_sorted_children client l s).1)
                t (ground arith)
        ]
      ]
    ]
  ]
    where
      decision : S → Option PredicateResults
      decision u =
          gets_the_lock (get_sorted_children client l u).0.0 (drop (length l.base_path + 1) path)
            l.max_leases
