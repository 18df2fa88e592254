-- ===== src/State/Queue.antt =====
-- The bounded queue of postState (state.go).
use curator_go.Base.{
  ℕ, zero, suc, ◌+◌, ◌-◌, ◌≤◌, ◌<◌, ◌≡◌, refl, some, List, [], ◌∷◌, ◌++◌, arith, length, drop,
  length-append,
}
use curator_go.State.{ConnectionState, post_loop}

-- What the queue keeps when an event is posted: the newest events, in order, as many as fit.
pub keep_newest : ℕ → List ConnectionState → List ConnectionState
keep_newest size queue = drop (length queue + 1 - size) queue

drop_nil : (n : ℕ) → drop {A = ConnectionState} n [] ≡ []
drop_nil zero = refl
drop_nil (suc n) = refl

drop_none : (n : ℕ) (q : List ConnectionState) → n ≡ 0 → drop n q ≡ q
drop_none n q e = rw e

drop_one :
    (n : ℕ) (x : ConnectionState) (q : List ConnectionState) (k : ℕ)
    → n ≡ suc k
    → drop n (x ∷ q) ≡ drop k q
drop_one n x q k e = rw e

post_loop_lem :
    (size fuel : ℕ) (s : ConnectionState) (queue : List ConnectionState)
    → 0 < size
    → length queue < fuel
    → post_loop size fuel s queue ≡ some (keep_newest size queue ++ s ∷ [])
unfolding post_loop keep_newest
post_loop_lem size zero s queue h f = absurd (omega arith)
post_loop_lem size (suc fuel) s [] h f = ground (arith, drop_nil (0 + 1 - size))
post_loop_lem size (suc fuel) s (e ∷ queue) h f = ground (
  arith,
  drop_none (suc (length queue) + 1 - size) (e ∷ queue),
  drop_one (suc (length queue) + 1 - size) e queue (length queue + 1 - size),
  post_loop_lem size fuel s queue h,
)

length-drop : (n : ℕ) (q : List ConnectionState) → length (drop n q) ≡ length q - n
length-drop zero q = omega arith
length-drop (suc n) [] = omega arith
length-drop (suc n) (x ∷ q) = omega (arith, length-drop n q)

pub length-keep_newest :
    (size : ℕ) (s : ConnectionState) (queue : List ConnectionState)
    → 0 < size
    → length (keep_newest size queue ++ s ∷ []) ≤ size
unfolding keep_newest
length-keep_newest size s queue h = omega (
  arith,
  length-append (drop (length queue + 1 - size) queue) (s ∷ []),
  length-drop (length queue + 1 - size) queue,
)

-- postState ends if the channel has room for one event, within one round more than the queue is
-- long. The new event comes last, behind the newest of the others, and the channel holds no more
-- than its size.
pub post_loop-keep_newest :
    (size fuel : ℕ) (s : ConnectionState) (queue : List ConnectionState)
    → 0 < size
    → length queue < fuel
    → (post_loop size fuel s queue ≡ some (keep_newest size queue ++ s ∷ []))
      × (length (keep_newest size queue ++ s ∷ []) ≤ size)
post_loop-keep_newest size fuel s queue h f =
    (post_loop_lem size fuel s queue h f, length-keep_newest size s queue h)
