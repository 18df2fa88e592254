-- ===== src/Locks/Reentrancy.antt =====
-- The re-entrant mutex (recipes/locks.go).
use curator_go.Base.{
  ℕ, zero, suc, ◌+◌, ◌-◌, ◌%◌, ◌<◌, ◌≡◌, refl, true, Option, none, some, arith, if◌then◌else◌,
}
use curator_go.Zk.{Slice}
use curator_go.Locks.{Mutex, Client, LockInternals, is_acquired, acquire, release}

module _ {S : Type 0} (client : Client S) where
  release_held :
      (m : Mutex) (s : S)
      → 1 < m.lock_count
      → m.lock_count < 2147483648
      → release client m s ≡ (none, record m { lock_count = m.lock_count - 1 }, s)
  unfolding release
  release_held m s h k =
      let e : (m.lock_count + 4294967296 - 1) % 4294967296 ≡ m.lock_count - 1 = omega arith in
      ground (arith, e)

module _ {S : Type 0} (client : Client S) (rounds fuel : ℕ) (l : LockInternals)
    (payload : Slice ℕ) where
  acquire_held :
      (m : Mutex) (s : S)
      → 0 < m.lock_count
      → m.lock_count + 1 < 2147483648
      → acquire client rounds fuel l payload m s
        ≡ some ((true, none), record m { lock_count = m.lock_count + 1 }, s)
  unfolding acquire
  acquire_held m s h k =
      let e : (m.lock_count + 1) % 4294967296 ≡ m.lock_count + 1 = omega arith in ground (arith, e)

  -- `n` calls of Acquire in a row that all return true, and `n` calls of Release.
  pub acquires : ℕ → Mutex × S → Option (Mutex × S)
  acquires zero r = some r
  acquires (suc n) (m, s) = elim (acquire client rounds fuel l payload m s) [
    | none ↦ none
    | some ((locked, err), m1, s1) ↦ if locked then acquires n (m1, s1) else none
  ]

  pub releases : ℕ → Mutex × S → Mutex × S
  releases zero r = r
  releases (suc n) (m, s) = let (err, m1, s1) = release client m s in releases n (m1, s1)

  acquires_held :
      (n : ℕ) (m : Mutex) (s : S)
      → 0 < m.lock_count
      → m.lock_count + n < 2147483648
      → acquires n (m, s) ≡ some (record m { lock_count = m.lock_count + n }, s)
  unfolding acquires
  acquires_held zero m s h k = ground arith
  acquires_held (suc n) m s h k =
      rw (acquire_held m s h (omega arith), acquires)
        (ground (arith, acquires_held n (record m { lock_count = m.lock_count + 1 }) s))

  releases_held :
      (n c : ℕ) (m : Mutex) (s : S)
      → 0 < c
      → m.lock_count ≡ c + n
      → c + n < 2147483648
      → releases n (m, s) ≡ (record m { lock_count = c }, s)
  unfolding releases
  releases_held zero c m s h k b = ground arith
  releases_held (suc n) c m s h k b =
      rw (release_held client m s (omega arith) (omega arith), releases)
        (ground (arith, releases_held n c (record m { lock_count = m.lock_count - 1 }) s))

  -- A mutex that is held is re-entrant: any number of further Acquires, within the range of an
  -- int32, all return true without asking the server, and as many Releases lead back to the same
  -- mutex and server, with the lock still held.
  pub nested_locks :
      (n : ℕ) (m : Mutex) (s : S)
      → 0 < m.lock_count
      → m.lock_count + n < 2147483648
      → (m' : Mutex) × (acquires n (m, s) ≡ some (m', s))
        × (releases n (m', s) ≡ (m, s))
        × (is_acquired m ≡ true)
  unfolding is_acquired
  nested_locks n m s h k = (
    record m { lock_count = m.lock_count + n },
    acquires_held n m s h k,
    releases_held n m.lock_count (record m { lock_count = m.lock_count + n }) s h refl k,
    ground arith,
  )
