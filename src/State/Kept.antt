-- ===== src/State/Kept.antt =====
-- What the operations of the connection state manager (state.go) do to its life.
use curator_go.Base.{
  ◌≡◌, refl, ◌∙◌, Bool, true, false, not, ◌||◌, Option, none, some, arith, Option-cases, Bool-cases,
  List-cases, inl, inr, if◌then◌else◌, length, ◌+◌,
}
use curator_go.State.{
  State, latent, started, stopped, same_state, same_connection, ConnectionState, lost, suspended,
  Manager, new_manager, start, close, post_loop, post_state, set_to_suspended, local_state,
  is_plain, add_state_change, process_event,
}

-- The life of a manager that a call leaves, if it returns.
abbrev pub Stays : State → Option (Manager × Bool) → Type 0
Stays life none = Unit
Stays life (some r) = r.0.state ≡ life

post_state-state :
    (m : Manager) (s : ConnectionState) {m' : Manager}
    → post_state m s ≡ some m'
    → m'.state ≡ m.state
unfolding post_state
post_state-state m s {m'} e = elim (Bool-cases m.closed) [
  | inl is_closed ↦ ground arith
  | inr is_open ↦ elim (Option-cases m.events) [
    | inl no_queue ↦ ground arith
    | inr (queue, has) ↦ elim (Option-cases (post_loop m.queue_size (length queue + 2) s queue)) [
      | inl none_left ↦ ground arith
      | inr (q, posted) ↦ ground arith
    ]
  ]
]

posted-Stays :
    (life : State) (m : Manager) (s : ConnectionState)
    → m.state ≡ life
    → Stays life (elim (post_state m s) [ none ↦ none | some m' ↦ some (m', true) ])
posted-Stays life m s h = elim (Option-cases (post_state m s)) [
  | inl waits ↦ rw waits tt
  | inr (m', e) ↦ rw e (post_state-state m s e ∙ h)
]

either_of :
    (life : State) (b : Bool) (x y : Option (Manager × Bool))
    → Stays life x
    → Stays life y
    → Stays life (if b then x else y)
either_of life true x y h k = h
either_of life false x y h k = k

pub set_to_suspended-Stays : (m : Manager) → Stays m.state (set_to_suspended m)
unfolding set_to_suspended
set_to_suspended-Stays m = either_of m.state (not (same_state m.state started)) _ _ refl (
    either_of m.state (same_connection m.current lost || same_connection m.current suspended) _ _
      refl (posted-Stays m.state (record m { current = suspended }) suspended refl))

local_state-state : (m : Manager) (s : ConnectionState) → (local_state m s).0.state ≡ m.state
unfolding local_state
local_state-state m s = elim (Bool-cases (is_plain s)) [
  | inl plain ↦ ground arith
  | inr other ↦ ground arith
]

pub add_state_change-Stays :
    (m : Manager) (s : ConnectionState) → Stays m.state (add_state_change m s)
unfolding add_state_change
add_state_change-Stays m s =
    let (m1, posted) = local_state (record m { current = s }) s in
    either_of m.state (not (same_state m.state started)) _ _ refl (
      either_of m.state (same_connection m.current s) _ _ refl
        (posted-Stays m.state m1 posted (local_state-state (record m { current = s }) s)))

pub new-state : new_manager.state ≡ latent
unfolding new_manager
new-state = refl

-- Start makes a latent manager a started one, and nothing else of any; Close makes a started
-- one a stopped one.
pub start-state :
    (m : Manager) → m.state ≡ latent → ((start m).0.state ≡ started) × ((start m).1 ≡ none)
unfolding start
start-state m h = ground arith

pub close-state : (m : Manager) → m.state ≡ started → (close m).state ≡ stopped
unfolding close
close-state m h = ground arith

pub round-state : (m : Manager) {m' : Manager} → process_event m ≡ some m' → m'.state ≡ m.state
unfolding process_event
round-state m {m'} e = elim (Option-cases m.events) [
  | inl no_queue ↦ ground arith
  | inr (queue, has) ↦ elim (List-cases queue) [
    | inl empty ↦ ground arith
    | inr (x, rest, more) ↦ ground arith
  ]
]
