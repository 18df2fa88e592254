-- ===== src/Locks/Driver.antt =====
-- GetsTheLock (recipes/locks.go): who gets the lock, and whom the others watch.
use curator_go.Base.{
  ℕ, zero, suc, ◌+◌, ◌-◌, ◌≤◌, ◌<◌, ◌≡◌, refl, sym, ◌∙◌, ◌≢◌, true, false, none, some, List, [],
  ◌∷◌, ◌++◌, arith, ltb, if◌then◌else◌, length, get_elem?, All, Bytes, bytes_eq_iff,
}
use curator_go.Locks.{PredicateResults, gets_from, gets_the_lock}

-- The element at an index of a list, which is there.
get_elem?-append :
    (pre : List Bytes) (r : List Bytes) (i : ℕ)
    → i < length pre
    → (p : Bytes) × (get_elem? (pre ++ r) i ≡ some p) × (get_elem? pre i ≡ some p)
get_elem?-append [] r i h = elim h [ ]
get_elem?-append (x ∷ pre) r zero h = (x, refl, refl)
get_elem?-append (x ∷ pre) r (suc i) h = get_elem?-append pre r i (omega arith)

-- The answer for a child with `n` children before it.
answer : List Bytes → ℕ → ℕ → PredicateResults
answer all n max_leases =
    if ltb n max_leases then record { gets_the_lock = true; path_to_watch = [] } else record {
      gets_the_lock = false;
      path_to_watch = elim (get_elem? all (n - max_leases)) [ none ↦ [] | some p ↦ p ];
    }

i_zero : (i : ℕ) → i + 0 ≡ i
i_zero i = omega arith

shift : (i n : ℕ) → i + suc n ≡ i + 1 + n
shift i n = omega arith

gets_from_lem :
    (pre : List Bytes) (all post : List Bytes) (i : ℕ) (name : Bytes) (max_leases : ℕ)
    → All (λ c. c ≢ name) pre
    → gets_from all i (pre ++ name ∷ post) name max_leases
      ≡ some (answer all (i + length pre) max_leases)
unfolding gets_from answer
gets_from_lem [] all post i name max_leases h = ground (arith, bytes_eq_iff name name, i_zero i)
gets_from_lem (x ∷ pre) all post i name max_leases h = ground (
  arith,
  bytes_eq_iff x name,
  gets_from_lem pre all post (i + 1) name max_leases h.1,
  shift i (length pre),
)

-- A child with `n` others before it gets the lock exactly if fewer than the number of leases
-- stand before it. Otherwise it watches a child before it: the one that many places earlier.
pub gets_the_lock_lem :
    (pre post : List Bytes) (name : Bytes) (max_leases : ℕ)
    → All (λ c. c ≢ name) pre
    → (length pre < max_leases
        → gets_the_lock (pre ++ name ∷ post) name max_leases
          ≡ some (record { gets_the_lock = true; path_to_watch = [] }))
      × (0 < max_leases
          → max_leases ≤ length pre
          → (p : Bytes) × (get_elem? pre (length pre - max_leases) ≡ some p)
            × (gets_the_lock (pre ++ name ∷ post) name max_leases
                ≡ some (record { gets_the_lock = false; path_to_watch = p })))
unfolding gets_the_lock answer
gets_the_lock_lem pre post name max_leases h =
    let all = pre ++ name ∷ post in
    let found = gets_from_lem pre all post 0 name max_leases h in
    (
      λ first. ground arith,
      λ pos behind.
          let (p, in_all, in_pre) =
            get_elem?-append pre (name ∷ post) (length pre - max_leases) (omega arith) in
          (p, in_pre, ground arith),
    )

gets_from-absent :
    (rest all : List Bytes) (i : ℕ) (name : Bytes) (max_leases : ℕ)
    → All (λ c. c ≢ name) rest
    → gets_from all i rest name max_leases ≡ none
unfolding gets_from
gets_from-absent [] all i name max_leases h = refl
gets_from-absent (x ∷ rest) all i name max_leases h =
    ground (arith, bytes_eq_iff x name, gets_from-absent rest all (i + 1) name max_leases h.1)

gets_from-first :
    (x : Bytes) (rest all : List Bytes) (i : ℕ) (a : Bytes) (r : PredicateResults)
    → gets_from all (suc i) (x ∷ rest) a 1 ≡ some r
    → r.gets_the_lock ≡ false
unfolding gets_from
gets_from-first x [] all i a r e = ground arith
gets_from-first x (y ∷ rest) all i a r e =
    ground (arith, gets_from-first y rest all (suc i) a r, one_more i)
  where
    one_more : (n : ℕ) → suc n + 1 ≡ suc (suc n)
    one_more n = omega arith

gets_the_lock-head :
    (x : Bytes) (rest : List Bytes) (a : Bytes) (r : PredicateResults)
    → gets_the_lock (x ∷ rest) a 1 ≡ some r
    → r.gets_the_lock ≡ true
    → x ≡ a
unfolding gets_the_lock gets_from
gets_the_lock-head x [] a r e h = ground (arith, bytes_eq_iff x a)
gets_the_lock-head x (y ∷ rest) a r e h =
    ground (arith, bytes_eq_iff x a, gets_from-first y rest (x ∷ y ∷ rest) 0 a r)

gets_the_lock-nil : (a : Bytes) → gets_the_lock [] a 1 ≡ none
unfolding gets_the_lock gets_from
gets_the_lock-nil a = refl

-- Mutual exclusion: with one lease, two names that both get the lock from the same list of
-- children are the same name.
pub mutual_exclusion :
    (children : List Bytes) (a b : Bytes) (r t : PredicateResults)
    → gets_the_lock children a 1 ≡ some r
    → gets_the_lock children b 1 ≡ some t
    → r.gets_the_lock ≡ true
    → t.gets_the_lock ≡ true
    → a ≡ b
mutual_exclusion [] a b r t e d h k = cc (gets_the_lock-nil a)
mutual_exclusion (x ∷ rest) a b r t e d h k =
    sym (gets_the_lock-head x rest a r e h) ∙ gets_the_lock-head x rest b t d k
