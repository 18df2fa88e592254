-- ===== src/Handle.antt =====
-- state.go: the handle holder, which dials the server when a connection is first asked for and
-- keeps the connection until it is reset or cleared.
pub mod Ownership
pub mod Redial
use curator_go.Base.{Bool, true, false, not, Option, none, some, [], Bytes, bytes_eq, ℕ, ℤ}
use curator_go.Errors.{Err}

-- What the connection state counts with its tracer.
pub data Event : Type 0 where
  session_timed_out connections_timed_out connection_string_changed session_expired : Event
  drop_background_error background_exceptions : Event

-- What the session handling uses of the outside: the ensemble provider, the dialer with its
-- connections (told apart by a number; a nil connection is `none`), the clock and the tracer.
-- `dial` returns the connection, the channel of its events and the error; `watch` starts the
-- goroutine that hands those events to the connection state.
pub record Outside (S : Type 0) : Type 0 where
  pub connection_string : S → Bytes
  pub start_ensemble : S → Option Err × S
  pub close_ensemble : S → S
  pub dial : Bytes → S → (Option ℕ × Option ℕ × Option Err) × S
  pub close_conn : ℕ → S → S
  pub watch : ℕ → S → S
  pub since : ℕ → S → ℤ
  pub now : S → ℕ
  pub add_count : Event → S → S

-- The two implementations of zookeeperHelper; a nil helper is `none`.
pub data Helper : Type 0 where
  factory : Helper
  cache : (connect_string : Bytes) → (conn : Option ℕ) → Helper

-- zookeeperHelper.GetConnectionString.
abbrev helper_string : Helper → Bytes
helper_string factory = []
helper_string (cache connect_string conn) = connect_string

pub get_connection_string : Option Helper → Bytes
get_connection_string none = []
get_connection_string (some h) = helper_string h

module _ {S : Type 0} (o : Outside S) where
  unfoldable pub has_new_connection_string : Option Helper → S → Bool
  has_new_connection_string none s = false
  has_new_connection_string (some h) s = not (bytes_eq (o.connection_string s) (helper_string h))

  -- zookeeperFactory.GetZookeeperConnection, with the helper that it leaves.
  make_connection : S → (Option ℕ × Option Err) × Option Helper × S
  make_connection s =
      let connect_string = o.connection_string s in
      let ((conn, events, err), s1) = o.dial connect_string s in
      elim err [
        | some e ↦ ((none, some e), some factory, s1)
        | none ↦ (
          (conn, none),
          some (cache connect_string conn),
          elim events [ none ↦ s1 | some channel ↦ o.watch channel s1 ],
        )
      ]

  pub get_zookeeper_connection : Option Helper → S → (Option ℕ × Option Err) × Option Helper × S
  unfolding make_connection
  get_zookeeper_connection none s = ((none, none), none, s)
  get_zookeeper_connection (some factory) s = make_connection s
  get_zookeeper_connection (some (cache connect_string conn)) s =
      ((conn, none), some (cache connect_string conn), s)

  pub internal_close : Option Helper → S → Option Err × Option Helper × S
  internal_close none s = (none, none, s)
  internal_close (some h) s =
      let ((conn, err), h1, s1) = get_zookeeper_connection (some h) s in
      elim err [
        | some e ↦ (some e, h1, s1)
        | none ↦ elim conn [ none ↦ (none, h1, s1) | some c ↦ (none, h1, o.close_conn c s1) ]
      ]

  pub close_and_clear : Option Helper → S → Option Err × Option Helper × S
  close_and_clear (some factory) s = (none, some factory, s)
  close_and_clear h s = let (err, h1, s1) = internal_close h s in (err, none, s1)

  pub close_and_reset : Option Helper → S → Option Err × Option Helper × S
  close_and_reset h s =
      let (err, h1, s1) = internal_close h s in
      elim err [ some e ↦ (some e, h1, s1) | none ↦ (none, some factory, s1) ]
