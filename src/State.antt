-- ===== src/State.antt =====
-- The connection state manager of state.go (connectionStateManager): which state changes it posts
-- to its queue of events, and what its listeners are told. utils.go has its two atomic flags.
pub mod Queue
pub mod Traces
pub mod Kept
pub mod Operations
mod Tests
use curator_go.Base.{
  ℕ, zero, suc, ◌+◌, Bool, true, false, ◌||◌, not, Option, none, some, List, [], ◌∷◌, ◌++◌, ltb,
  if◌then◌else◌, length,
}
use curator_go.Errors.{Err, started_twice}

-- utils.go: `State`, the life of a component.
pub data State : Type 0 where
  latent started stopped : State

abbrev pub same_state : State → State → Bool
same_state latent latent = true
same_state started started = true
same_state stopped stopped = true
same_state _ _ = false

-- `State.Change`: a compare and swap.
unfoldable pub change : State → State → State → State × Bool
change s old new = if same_state s old then (new, true) else (s, false)

-- utils.go: `AtomicBool.CompareAndSwap`.
abbrev pub same_bool : Bool → Bool → Bool
same_bool true b = b
same_bool false b = not b

unfoldable pub compare_and_swap : Bool → Bool → Bool → Bool × Bool
compare_and_swap b old new = if same_bool b old then (new, true) else (b, false)

pub data ConnectionState : Type 0 where
  unknown connected suspended reconnected lost read_only : ConnectionState

-- `ConnectionState.Connected`.
pub is_connected : ConnectionState → Bool
is_connected connected = true
is_connected reconnected = true
is_connected read_only = true
is_connected _ = false

abbrev pub same_connection : ConnectionState → ConnectionState → Bool
same_connection unknown unknown = true
same_connection connected connected = true
same_connection suspended suspended = true
same_connection reconnected reconnected = true
same_connection lost lost = true
same_connection read_only read_only = true
same_connection _ _ = false

abbrev pub state_queue_size : ℕ
state_queue_size = 25

-- `events` is the buffered channel: `none` before Start makes it, and `closed` after Close.
-- `listening` says whether the listeners are still registered; `heard` is what they were told.
pub record Manager : Type 0 where
  pub state : State
  pub current : ConnectionState
  pub initial_sent : Bool
  pub queue_size : ℕ
  pub events : Option (List ConnectionState)
  pub closed : Bool
  pub listening : Bool
  pub heard : List ConnectionState

-- newConnectionStateManager.
unfoldable pub new_manager : Manager
new_manager = record {
  state = latent;
  current = unknown;
  initial_sent = false;
  queue_size = state_queue_size;
  events = none;
  closed = false;
  listening = true;
  heard = [];
}

unfoldable pub start : Manager → Manager × Option Err
unfolding change
start m =
    let (state, changed) = change m.state latent started in
    if not changed
    then (m, some started_twice)
    else (record m { state = state; events = some []; closed = false }, none)

pub close : Manager → Manager
unfolding change
close m =
    let (state, changed) = change m.state started stopped in
    if not changed then m else record m { state = state; closed = true; listening = false }

-- The loop of postState over a channel with room for `size` events: the oldest event is dropped
-- until the new one fits. Each round with a full channel takes one event out, so a queue of
-- length n is done after n + 1 rounds; `none` means that the fuel ran out.
pub post_loop : ℕ → ℕ → ConnectionState → List ConnectionState → Option (List ConnectionState)
post_loop size zero s queue = none
post_loop size (suc fuel) s [] =
    let again = post_loop size fuel s [] in if ltb 0 size then some (s ∷ []) else again
post_loop size (suc fuel) s (e ∷ queue) =
    let again = post_loop size fuel s queue in
    if ltb (length (e ∷ queue)) size then some ((e ∷ queue) ++ s ∷ []) else again

-- A send on a closed channel panics, and the deferred `recover` ends the call; a send on a nil
-- channel never goes through. The result says whether the call returns.
pub post_state : Manager → ConnectionState → Option Manager
post_state m s = if m.closed then some m else elim (m.events) [
  | none ↦ none
  | some queue ↦ elim (post_loop m.queue_size (length queue + 2) s queue) [
    | none ↦ none
    | some q ↦ some (record m { events = some q })
  ]
]

pub set_to_suspended : Manager → Option (Manager × Bool)
set_to_suspended m =
    if not (same_state m.state started)
    then some (m, false)
    else if same_connection m.current lost || same_connection m.current suspended
    then some (m, false)
    else elim (post_state (record m { current = suspended }) suspended) [
      | none ↦ none
      | some m' ↦ some (m', true)
    ]

-- The states that leave the flag of the first connection alone.
abbrev pub is_plain : ConnectionState → Bool
is_plain lost = true
is_plain suspended = true
is_plain read_only = true
is_plain _ = false

-- The `switch` of AddStateChange: the first connection is posted as CONNECTED.
pub local_state : Manager → ConnectionState → Manager × ConnectionState
unfolding compare_and_swap
local_state m s =
    if is_plain s
    then (m, s)
    else (let (flag, first) = compare_and_swap m.initial_sent false true in
        (record m { initial_sent = flag }, if first then connected else s))

pub add_state_change : Manager → ConnectionState → Option (Manager × Bool)
unfolding local_state
add_state_change m s =
    if not (same_state m.state started)
    then some (m, false)
    else if same_connection m.current s
    then some (m, false)
    else (let (m1, posted) = local_state (record m { current = s }) s in
        elim (post_state m1 posted) [ none ↦ none | some m2 ↦ some (m2, true) ])

-- One round of processEvents: the oldest event is taken and told to the listeners, which Close
-- has cleared. The result `none` means that the round waits, or that the loop has returned.
pub process_event : Manager → Option Manager
process_event m = elim (m.events) [
  | none ↦ none
  | some [] ↦ none
  | some (e ∷ queue) ↦
      some (record m {
        events = some queue;
        heard = if m.listening then m.heard ++ e ∷ [] else m.heard;
      })
]

-- connectionStateManager.Connected.
pub manager_connected : Manager → Bool
unfolding is_connected
manager_connected m = is_connected m.current
