-- ===== src/Session/Stall.antt =====
-- A session that is not connected when its timeouts have passed (state.go). `reset` leaves the time
-- of the last change as it is.
use curator_go.Base.{
  ℕ, zero, suc, ◌+◌, ◌%◌, ◌<◌, ◌≡◌, refl, false, Option, none, some, [], arith, Bytes, ltb_ℤ,
}
use curator_go.Errors.{Err}
use curator_go.Handle.{
  Outside, factory, cache, session_timed_out, get_zookeeper_connection, close_and_reset,
}
use curator_go.Handle.Redial.{
  IsSteady, close_and_reset-factory, redial, has_new_connection_string-IsSteady, cached,
}
use curator_go.Session.{
  Connection, two_64, deque_background_exception, reset, check_timeout, conn_unless, check_if_lost,
  conn_after, conn,
}

module _ {S : Type 0} (o : Outside S) (text : Bytes) where
  -- The session has no error to report, is not connected, and both its timeouts have passed.
  pub record IsStalled (c : Connection) : Type 0 where
    pub quiet : c.background_errors ≡ []
    pub lost : c.is_connected ≡ false
    pub dialed : (conn : Option ℕ) × (c.helper ≡ some (cache text conn))
    pub over_session : (s : S) → ltb_ℤ (o.since c.connection_start s) c.session_timeout ≡ false
    pub over_connection :
        (s : S) → ltb_ℤ (o.since c.connection_start s) c.connection_timeout ≡ false

  -- Some calls of Conn in a row.
  pub conns : ℕ → Connection → S → Connection × S
  conns zero c s = (c, s)
  conns (suc n) c s = let (got, c1, s1) = conn o c s in conns n c1 s1

  module _ (steady : IsSteady o text) where
    -- A session that has been reset and is stalled still.
    abbrev Again : Connection → Option Err → Connection → Type 0
    Again c err c' =
        (err ≡ none) × (c'.instance_index ≡ (c.instance_index + 1) % two_64) × IsStalled c'

    reset-Again : (c : Connection) (s : S) → IsStalled c → Again c (reset o c s).0 (reset o c s).1
    unfolding reset
    reset-Again c s v =
        let (conn, kept) = v.dialed in
        let (dropped, h1, s1) = close_and_reset o c.helper s in
        let closed : h1 ≡ some factory = rw kept (close_and_reset-factory o text steady conn s) in
        let (fine, (conn1, dialed)) = redial o text steady h1 s1 closed in
        (
          fine,
          refl,
          record {
            quiet = v.quiet;
            lost = refl;
            dialed = (conn1, dialed);
            over_session = v.over_session;
            over_connection = v.over_connection;
          },
        )

    check_timeout-Again :
        (c : Connection) (s : S)
        → IsStalled c
        → check_timeout o c s ≡ reset o c (o.add_count session_timed_out s)
    unfolding check_timeout
    check_timeout-Again c s v =
        let (conn, kept) = v.dialed in
        ground (
          arith,
          v.over_session s,
          v.over_connection s,
          has_new_connection_string-IsSteady o text steady conn s,
        )

    conn_unless-Again :
        (c' : Connection) (err : Option Err) (c : Connection) (s : S)
        → Again c' err c
        → Again c' (conn_unless o err c s).0.1 (conn_unless o err c s).1
    unfolding conn_unless
    conn_unless-Again c' (some e) c s (fine, index, v) = absurd (ground arith)
    conn_unless-Again c' none c s (fine, index, v) =
        let (conn, kept) = v.dialed in
        let (got, h, s1) = get_zookeeper_connection o c.helper s in
        let same : get_zookeeper_connection o c.helper s
            ≡ ((conn, none), some (cache text conn), s) =
          rw kept (cached o text steady conn s) in
        (
          ground arith,
          index,
          record {
            quiet = v.quiet;
            lost = v.lost;
            dialed = (conn, ground arith);
            over_session = v.over_session;
            over_connection = v.over_connection;
          },
        )

    conn_stalled :
        (c : Connection) (s : S)
        → IsStalled c
        → let (err, c1, s1) = reset o c (o.add_count session_timed_out s) in
          conn o c s ≡ conn_unless o err c1 s1
    unfolding conn conn_after check_if_lost deque_background_exception
    conn_stalled c s v = ground (arith, check_timeout-Again c s v)

    conn-Again : (c : Connection) (s : S) → IsStalled c → Again c (conn o c s).0.1 (conn o c s).1
    conn-Again c s v =
        let (err, c1, s1) = reset o c (o.add_count session_timed_out s) in
        let again = reset-Again c (o.add_count session_timed_out s) v in
        rw (conn_stalled c s v) (conn_unless-Again c err c1 s1 again)

    -- While a session is not connected, both its timeouts have passed since its last change, no error
    -- waits, and the provider's connection string is the same and dialing it works, each call of Conn
    -- resets the session: n calls in a row raise the instance index, an integer of 64 bits, n times,
    -- and leave the session as it was in all of this.
    pub conns-IsStalled :
        (n : ℕ) (c : Connection) (s : S)
        → IsStalled c
        → c.instance_index < two_64
        → ((conns n c s).0.instance_index ≡ (c.instance_index + n) % two_64)
          × IsStalled (conns n c s).0
    unfolding conns
    conns-IsStalled zero c s v h = (omega arith, v)
    conns-IsStalled (suc n) c s v h =
        let (got, c1, s1) = conn o c s in
        let (fine, index, v1) = conn-Again c s v in
        let (raised, v2) = conns-IsStalled n c1 s1 v1 (omega (arith, index)) in
        (omega (arith, raised, index), v2)
