-- ===== src/Session.antt =====
-- state.go: connectionState, the session of a client with the server. It dials through the handle
-- holder, follows the events of the session, and keeps the errors of its background work for the
-- next caller. The parent watchers, to which `process` hands each event in goroutines of their
-- own, do not take part in its state.
pub mod Backlog
pub mod Events
pub mod Reach
pub mod Runs
pub mod Sample
pub mod Stall
mod Tests
use curator_go.Base.{
  ℕ, suc, ◌+◌, ◌%◌, Bool, true, false, not, ◌&&◌, Option, none, some, List, [], ◌∷◌, ◌++◌, ltb,
  if◌then◌else◌, length, Bytes, ℤ, ltb_ℤ,
}
use curator_go.Errors.{Err, connection_loss}
use curator_go.State.{same_bool}
use curator_go.Handle.{
  Outside, Event, session_timed_out, connections_timed_out, connection_string_changed,
  session_expired, drop_background_error, background_exceptions, Helper, has_new_connection_string,
  get_zookeeper_connection, close_and_clear, close_and_reset,
}

abbrev pub max_background_errors : ℕ
max_background_errors = 10

abbrev pub two_64 : ℕ
two_64 = 18446744073709551616

-- connectionState. The instance index is an int64, as its residue modulo 2^64; the channel of
-- background errors is the list of what it holds, the oldest first.
pub record Connection : Type 0 where
  pub session_timeout : ℤ
  pub connection_timeout : ℤ
  pub helper : Option Helper
  pub instance_index : ℕ
  pub connection_start : ℕ
  pub is_connected : Bool
  pub background_errors : List Err

-- The states of a session event that checkState tells apart.
pub data EventState : Type 0 where
  has_session expired connecting connected disconnected other_state : EventState

abbrev pub min_timeout : Connection → ℤ
min_timeout c =
    if ltb_ℤ c.connection_timeout c.session_timeout then c.connection_timeout else c.session_timeout

abbrev pub max_timeout : Connection → ℤ
max_timeout c =
    if ltb_ℤ c.connection_timeout c.session_timeout then c.session_timeout else c.connection_timeout

module _ {S : Type 0} (o : Outside S) where
  pub new_connection_state : ℤ → ℤ → S → Connection
  new_connection_state session_timeout connection_timeout s = record {
    session_timeout = session_timeout;
    connection_timeout = connection_timeout;
    helper = none;
    instance_index = 0;
    connection_start = o.now s;
    is_connected = false;
    background_errors = [];
  }

  -- The loop of queueBackgroundException: while the channel is full, its oldest error is dropped.
  -- Each round takes one error out, and an empty channel has room.
  pub queue_error : Err → List Err → S → List Err × S
  queue_error e [] s = (e ∷ [], s)
  queue_error e (x ∷ rest) s =
      let later = queue_error e rest (o.add_count drop_background_error s) in
      if ltb (length (x ∷ rest)) max_background_errors then ((x ∷ rest) ++ e ∷ [], s) else later

  pub queue_background_exception : Err → Connection → S → Connection × S
  unfolding queue_error
  queue_background_exception e c s =
      let (errors, s1) = queue_error e c.background_errors s in
      (record c { background_errors = errors }, s1)

  pub deque_background_exception : Connection → S → Option Err × Connection × S
  deque_background_exception c s = elim (c.background_errors) [
    | [] ↦ (none, c, s)
    | e ∷ rest ↦
        (some e, record c { background_errors = rest }, o.add_count background_exceptions s)
  ]

  -- The error of closeAndReset is dropped; the call after it dials.
  pub reset : Connection → S → Option Err × Connection × S
  reset c s =
      let (dropped, h1, s1) = close_and_reset o c.helper s in
      let ((conn, err), h2, s2) = get_zookeeper_connection o h1 s1 in
      (
        err,
        record c {
          instance_index = (c.instance_index + 1) % two_64;
          is_connected = false;
          helper = h2;
        },
        s2,
      )

  -- A reset whose error is queued: what the two handlers below do after they have counted.
  pub reset_in_background : Connection → S → Connection × S
  reset_in_background c s =
      let (err, c1, s1) = reset c s in
      elim err [ none ↦ (c1, s1) | some e ↦ queue_background_exception e c1 s1 ]

  pub handle_new_connection_string : Connection → S → Connection × S
  unfolding reset_in_background
  handle_new_connection_string c s = reset_in_background c (o.add_count connection_string_changed s)

  pub handle_expired_session : Connection → S → Connection × S
  unfolding reset_in_background
  handle_expired_session c s = reset_in_background c (o.add_count session_expired s)

  pub check_timeout : Connection → S → Option Err × Connection × S
  check_timeout c s =
      let elapsed = o.since c.connection_start s in
      if ltb_ℤ elapsed (min_timeout c)
      then (none, c, s)
      else if has_new_connection_string o c.helper s
      then (let (c1, s1) = handle_new_connection_string c s in (none, c1, s1))
      else if not (ltb_ℤ elapsed (max_timeout c))
      then reset c (o.add_count session_timed_out s)
      else (some connection_loss, c, o.add_count connections_timed_out s)

  -- Conn, behind the background errors.
  pub conn_unless : Option Err → Connection → S → (Option ℕ × Option Err) × Connection × S
  conn_unless (some e) c s = ((none, some e), c, s)
  conn_unless none c s =
      let (got, h, s1) = get_zookeeper_connection o c.helper s in (got, record c { helper = h }, s1)

  -- The timeout is looked at while the session is not connected.
  pub check_if_lost : Bool → Connection → S → Option Err × Connection × S
  check_if_lost true c s = (none, c, s)
  check_if_lost false c s = check_timeout c s

  pub conn_after : Option Err → Connection → S → (Option ℕ × Option Err) × Connection × S
  unfolding conn_unless check_if_lost
  conn_after (some e) c s = ((none, some e), c, s)
  conn_after none c s =
      let (late, c1, s1) = check_if_lost c.is_connected c s in conn_unless late c1 s1

  pub conn : Connection → S → (Option ℕ × Option Err) × Connection × S
  unfolding conn_after
  conn c s = let (queued, c1, s1) = deque_background_exception c s in conn_after queued c1 s1

  pub start_connection : Connection → S → Option Err × Connection × S
  start_connection c s =
      let (err, s1) = o.start_ensemble s in
      elim err [ some e ↦ (some e, c, s1) | none ↦ reset c s1 ]

  unfoldable pub close_connection : Connection → S → Option Err × Connection × S
  close_connection c s =
      let (err, h, s1) = close_and_clear o c.helper (o.close_ensemble s) in
      (err, record c { helper = h; is_connected = false }, s1)

  -- The `switch` of checkState, with the answer whether the connection string is looked at.
  pub switch_state : EventState → Connection → S → (Bool × Bool) × Connection × S
  switch_state has_session c s = ((true, true), c, s)
  switch_state expired c s = let (c1, s1) = handle_expired_session c s in ((false, false), c1, s1)
  switch_state _ c s = ((false, true), c, s)

  pub check_state : EventState → Connection → S → Bool × Connection × S
  unfolding switch_state
  check_state e c s =
      let ((is_connected, check_new), c1, s1) = switch_state e c s in
      if check_new && has_new_connection_string o c1.helper s1
      then (let (c2, s2) = handle_new_connection_string c1 s1 in (false, c2, s2))
      else (is_connected, c1, s1)

  -- `process` for an event; only one of the session's own type is looked at.
  pub process : Bool → EventState → Connection → S → Connection × S
  process of_session e c s =
      let (now_connected, c1, s1) = check_state e c s in
      if of_session
      then (if same_bool now_connected c.is_connected
          then (c1, s1)
          else (record c1 { is_connected = now_connected; connection_start = o.now s1 }, s1))
      else (c, s)
