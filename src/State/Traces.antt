-- ===== src/State/Traces.antt =====
-- What holds of the connection state manager (state.go) along every run of its operations.
use curator_go.Base.{
  ◌+◌, ◌≤◌, ◌≡◌, refl, ◌≢◌, ◌⊎◌, inl, inr, Bool, true, false, Option, none, some, List, [], ◌∷◌,
  ◌++◌, arith, length, Option-cases,
}
use curator_go.State.{
  latent, started, ConnectionState, unknown, connected, suspended, reconnected, Manager,
  new_manager, start, close, post_state, set_to_suspended, local_state, add_state_change,
  process_event, state_queue_size,
}
use curator_go.State.Queue.{keep_newest, length-keep_newest, post_loop-keep_newest}

-- One call of an operation, or one round of processEvents.
pub data Step (m : Manager) : Manager → Type 0 where
  starts : Step m (start m).0
  closes : Step m (close m)
  suspends : {r : Manager × Bool} → set_to_suspended m ≡ some r → Step m r.0
  changes :
      {r : Manager × Bool} (s : ConnectionState)
      → s ≢ unknown
      → add_state_change m s ≡ some r
      → Step m r.0
  tells : {m' : Manager} → process_event m ≡ some m' → Step m m'

pub data Reach : Manager → Type 0 where
  new : Reach new_manager
  next : {m m' : Manager} → Reach m → Step m m' → Reach m'

-- The last of a sequence of events, `d` if there is none.
pub newest : ConnectionState → List ConnectionState → ConnectionState
newest d [] = d
newest d (e ∷ queue) = newest e queue

newest-snoc :
    (d e : ConnectionState) (queue : List ConnectionState) → newest d (queue ++ e ∷ []) ≡ e
unfolding newest
newest-snoc d e [] = refl
newest-snoc d e (x ∷ queue) = newest-snoc x e queue

-- The event reports the state: it is the state, or CONNECTED for the first RECONNECTED.
abbrev pub Reports : ConnectionState → ConnectionState → Type 0
Reports e current = (e ≡ current) ⊎ ((e ≡ connected) × (current ≡ reconnected))

abbrev Bounded : Option (List ConnectionState) → Type 0
Bounded none = Unit
Bounded (some queue) = length queue ≤ state_queue_size

-- The newest event that was told or still waits reports the current state.
abbrev Informed : Option (List ConnectionState) → List ConnectionState → ConnectionState → Type 0
Informed none heard current = ⊥
Informed (some queue) heard current = Reports (newest (newest unknown heard) queue) current

pub record IsValid (m : Manager) : Type 0 where
  pub size : m.queue_size ≡ state_queue_size
  pub bounded : Bounded m.events
  pub fresh :
      m.state ≡ latent
      → (m.current ≡ unknown) × (m.heard ≡ []) × (m.events ≡ none) × (m.listening ≡ true)
  pub running : m.state ≡ started → (m.closed ≡ false) × (m.listening ≡ true)
  pub informed : m.state ≡ started → Informed m.events m.heard m.current

new_manager-IsValid : IsValid new_manager
unfolding new_manager
new_manager-IsValid = ground arith

-- Posting to a running manager.
unfoldable pub posted : Manager → ConnectionState → List ConnectionState → Manager
posted m s queue = record m { events = some (keep_newest state_queue_size queue ++ s ∷ []) }

pub post_state-posted :
    (m : Manager) (s : ConnectionState) (queue : List ConnectionState)
    → m.closed ≡ false
    → m.queue_size ≡ state_queue_size
    → m.events ≡ some queue
    → post_state m s ≡ some (posted m s queue)
unfolding post_state posted
post_state-posted m s queue c z e =
    ground (arith, post_loop-keep_newest state_queue_size (length queue + 2) s queue)

start-IsValid : (m : Manager) → IsValid m → IsValid (start m).0
unfolding start newest
start-IsValid m v = ground arith

close-IsValid : (m : Manager) → IsValid m → IsValid (close m)
unfolding close
close-IsValid m v = ground arith

-- What the two operations that post do to a valid manager.
suspend-IsValid :
    (m : Manager) (r : Manager × Bool) → IsValid m → set_to_suspended m ≡ some r → IsValid r.0
unfolding set_to_suspended posted
suspend-IsValid m r v h = elim (Option-cases m.events) [
  | inl no_queue ↦ ground arith
  | inr (queue, e) ↦ ground (
    arith,
    post_state-posted (record m { current = suspended }) suspended queue,
    newest-snoc (newest unknown m.heard) suspended (keep_newest state_queue_size queue),
    length-keep_newest state_queue_size suspended queue,
  )
]

change-IsValid :
    (m : Manager) (s : ConnectionState) (r : Manager × Bool)
    → s ≢ unknown
    → IsValid m
    → add_state_change m s ≡ some r
    → IsValid r.0
unfolding add_state_change posted
change-IsValid m s r known v h = elim (Option-cases m.events) [
  | inl no_queue ↦ ground arith
  | inr (queue, e) ↦
      let (m1, told) = local_state (record m { current = s }) s in
      ground (
        arith,
        post_state-posted m1 told queue,
        newest-snoc (newest unknown m.heard) told (keep_newest state_queue_size queue),
        length-keep_newest state_queue_size told queue,
      )
]

tell-queue :
    (m m' : Manager) (queue : List ConnectionState)
    → IsValid m
    → m.events ≡ some queue
    → process_event m ≡ some m'
    → IsValid m'
unfolding process_event newest
tell-queue m m' [] v e h = ground arith
tell-queue m m' (x ∷ queue) v e h = ground (arith, newest-snoc unknown x m.heard)

tell-IsValid : (m m' : Manager) → IsValid m → process_event m ≡ some m' → IsValid m'
unfolding process_event
tell-IsValid m m' v h = elim (Option-cases m.events) [
  | inl no_queue ↦ ground arith
  | inr (queue, e) ↦ tell-queue m m' queue v e h
]

pub Reach-IsValid : {m : Manager} → Reach m → IsValid m
Reach-IsValid new = new_manager-IsValid
Reach-IsValid (next {m} r starts) = start-IsValid m (Reach-IsValid r)
Reach-IsValid (next {m} r closes) = close-IsValid m (Reach-IsValid r)
Reach-IsValid (next {m} r (suspends {r = t} h)) = suspend-IsValid m t (Reach-IsValid r) h
Reach-IsValid (next {m} r (changes {r = t} s known h)) =
    change-IsValid m s t known (Reach-IsValid r) h
Reach-IsValid (next {m} r (tells {m' = n} h)) = tell-IsValid m n (Reach-IsValid r) h
