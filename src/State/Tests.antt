-- ===== src/State/Tests.antt =====
-- A run of the connection state manager (state.go).
use curator_go.Base.{◌≡◌, refl, true, not, ◌&&◌, some, [], ◌∷◌}
use curator_go.State.{
  started, connected, suspended, reconnected, lost, Manager, new_manager, start, same_state,
  same_connection, post_loop, post_state, local_state, add_state_change, change, compare_and_swap,
}
use curator_go.State.Traces.{Reach, Step}
use curator_go.State.Operations.{Changes, add_state_change_lem}

oldest_dropped : post_loop 2 3 lost (connected ∷ suspended ∷ []) ≡ some (suspended ∷ lost ∷ [])
unfolding post_loop
oldest_dropped = refl

abbrev running : Manager
running = (start new_manager).0

running-Reach : Reach running
running-Reach = Reach.next Reach.new Step.starts

abbrev first_posted : Manager
first_posted = record running {
  current = reconnected;
  initial_sent = true;
  events = some (connected ∷ []);
}

-- The first connection is posted as CONNECTED.
first_change : add_state_change running reconnected ≡ some (first_posted, true)
unfolding add_state_change local_state compare_and_swap post_state post_loop start change
    new_manager
first_change = refl

first-Reach : Reach first_posted
first-Reach = Reach.next running-Reach (Step.changes reconnected (λ e. cc) first_change)

add_state_change_lem_example :
    Changes first_posted lost
      (same_state first_posted.state started && not (same_connection first_posted.current lost))
      (add_state_change first_posted lost)
add_state_change_lem_example = add_state_change_lem lost first-Reach
