-- ===== src/Client.antt =====
-- client.go: the client of a server, which is a session (state.go) that has to be started. Its dialer
-- adds the authorizations of the client to each connection.
pub mod Auth
pub mod Life
mod Tests
use curator_go.Base.{
  ℕ, Bool, true, false, not, Option, none, some, List, [], ◌∷◌, if◌then◌else◌, Bytes,
}
use curator_go.Errors.{Err, already_started, not_started}
use curator_go.State.{compare_and_swap}
use curator_go.Handle.{Outside}
use curator_go.Session.{Connection, start_connection, close_connection, conn}

-- auth.go.
pub record AuthInfo : Type 0 where
  pub scheme : Bytes
  pub auth : Bytes

-- AddAuth of a connection.
abbrev pub Authorizer : Type 0 → Type 0
Authorizer S = ℕ → AuthInfo → S → Option Err × S

-- What a dialer returns: the connection, its events and the error.
abbrev pub Dialed : Type 0 → Type 0
Dialed S = (Option ℕ × Option ℕ × Option Err) × S

module _ {S : Type 0} (close_conn : ℕ → S → S) (add_auth : Authorizer S) where
  -- The loop over the authorizations, for the connection `c`.
  pub authorize : List AuthInfo → ℕ → Option ℕ → S → Dialed S
  authorize [] c events s = ((some c, events, none), s)
  authorize (info ∷ rest) c events s =
      let (err, s1) = add_auth c info s in
      let later = authorize rest c events s1 in
      elim err [ none ↦ later | some e ↦ ((none, none, some e), close_conn c s1) ]

  -- The function that NewCuratorZookeeperClient makes into a dialer.
  pub authorized : List AuthInfo → Dialed S → Dialed S
  unfolding authorize
  authorized infos ((some c, events, none), s) = authorize infos c events s
  authorized infos ((none, events, none), s) = ((none, events, none), s)
  authorized infos ((conn, events, some e), s) = ((conn, events, some e), s)

-- The outside of a client: that of its session, with the dialer above.
pub authorizing : {S : Type 0} → Outside S → Authorizer S → List AuthInfo → Outside S
unfolding authorized
authorizing o add_auth infos = record o {
  dial = λ text s. authorized o.close_conn add_auth infos (o.dial text s);
}

-- curatorZookeeperClient.
pub record ZookeeperClient : Type 0 where
  pub started : Bool
  pub state : Connection

module _ {S : Type 0} (o : Outside S) where
  unfoldable pub start_client : ZookeeperClient → S → Option Err × ZookeeperClient × S
  unfolding compare_and_swap
  start_client c s =
      let (started, swapped) = compare_and_swap c.started false true in
      let (err, state, s1) = start_connection o c.state s in
      if not swapped
      then (some already_started, c, s)
      else (err, record c { started = started; state = state }, s1)

  unfoldable pub close_client : ZookeeperClient → S → Option Err × ZookeeperClient × S
  close_client c s =
      let (err, state, s1) = close_connection o c.state s in
      (err, record c { started = false; state = state }, s1)

  unfoldable pub client_conn : ZookeeperClient → S → (Option ℕ × Option Err) × ZookeeperClient × S
  client_conn c s =
      let (got, state, s1) = conn o c.state s in
      if not c.started
      then ((none, some not_started), c, s)
      else (got, record c { state = state }, s1)
