-- ===== src/Framework/Life.antt =====
-- framework.go: the life of a framework, which starts and closes its connection state manager and
-- its client, and passes events on to its listeners.
pub mod Closing
pub mod Phases
pub mod Runs
mod Tests
use curator_go.Base.{Bool, true, false, not, Option, none, some, ℕ, List, [], if◌then◌else◌, ℤ}
use curator_go.Errors.{Err, started_twice}
use curator_go.State.{State, latent, started, stopped, change, Manager, new_manager}
use curator_go.State
use curator_go.Listeners.{Container, clear, for_each}
use curator_go.Handle.{Outside}
use curator_go.Client.{ZookeeperClient, start_client, close_client}
use curator_go.Framework.Connection.{SessionState, validate_connection}

-- The callbacks of listeners: EventReceived for an event `E`, and UnhandledError.
pub record Callbacks (S E : Type 0) : Type 0 where
  pub event_received : ℕ → E → S → Option Err × S
  pub unhandled_error : ℕ → Err → S → S
  pub closing : E

-- curatorFramework: the fields that its operations change, and what they start and close.
pub record CuratorFramework : Type 0 where
  pub state : State
  pub manager : Manager
  pub client : ZookeeperClient
  pub listeners : Container
  pub unhandled_error_listeners : Container

module _ {S E : Type 0} (o : Outside S) (k : Callbacks S E) where
  pub start_framework : CuratorFramework → S → Option Err × CuratorFramework × S
  unfolding change
  start_framework f s =
      let (state, changed) = change f.state latent started in
      let (manager, err) = State.start f.manager in
      let f1 = record f { state = state; manager = manager } in
      let (err1, client, s1) = start_client o f.client s in
      if not changed
      then (some started_twice, f, s)
      else elim err [ some e ↦ (some e, f1, s) | none ↦ (err1, record f1 { client = client }, s1) ]

  -- The error that a listener returns for the closing event is dropped.
  pub close_framework : CuratorFramework → S → Option Err × CuratorFramework × S
  unfolding change for_each clear
  close_framework f s =
      let (state, changed) = change f.state started stopped in
      let s1 = for_each (λ listener t. (k.event_received listener k.closing t).1) f.listeners s in
      let (err, client, s2) = close_client o f.client s1 in
      if not changed then (none, f, s) else (
        err,
        record {
          state = state;
          manager = State.close f.manager;
          client = client;
          listeners = clear f.listeners;
          unhandled_error_listeners = clear f.unhandled_error_listeners;
        },
        s2,
      )

  pub log_error : CuratorFramework → Err → S → S
  unfolding for_each
  log_error f e s =
      for_each (λ listener t. k.unhandled_error listener e t) f.unhandled_error_listeners s

  -- One listener of processEvent.
  pub receive : CuratorFramework → E → ℕ → S → S
  unfolding log_error
  receive f event listener s =
      let (err, s1) = k.event_received listener event s in
      elim err [ none ↦ s1 | some e ↦ log_error f e s1 ]

  -- `watched` is the state of the watched event, for an event of that type. The Boolean says whether
  -- a sync is started; `none` stands for a call of the manager that does not return.
  pub process_event :
      E → Option SessionState → CuratorFramework → S → Option (CuratorFramework × Bool × S)
  unfolding receive for_each
  process_event event watched f s =
      let told = for_each (receive f event) f.listeners s in
      elim watched [
        | none ↦ some (f, false, told)
        | some seen ↦ elim (validate_connection seen f.manager) [
          | none ↦ none
          | some (manager, syncs) ↦ some (record f { manager = manager }, syncs, told)
        ]
      ]
