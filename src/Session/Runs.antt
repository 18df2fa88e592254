-- ===== src/Session/Runs.antt =====
-- The operations of the session (state.go), its connection and its background errors.
use curator_go.Base.{
  ℕ, ◌≤◌, ◌≡◌, refl, Bool, true, false, ◌&&◌, Option, none, some, List, [], ◌∷◌, arith, length,
  length-append, ltb_ℤ, Option-cases, Bool-cases, List-cases, inl, inr,
}
use curator_go.Errors.{Err}
use curator_go.Handle.{
  Outside, Event, has_new_connection_string, close_and_reset, drop_background_error,
  background_exceptions, session_expired, connection_string_changed, session_timed_out,
  connections_timed_out,
}
use curator_go.Handle.Ownership.{
  IsLawful, held, get_zookeeper_connection-Owns, close_and_clear-Owns, close_and_reset-Owns,
}
use curator_go.State.{same_bool}
use curator_go.Session.{
  Connection, EventState, has_session, expired, connecting, connected, disconnected, other_state,
  max_background_errors, queue_error, queue_background_exception, deque_background_exception, reset,
  reset_in_background, handle_new_connection_string, handle_expired_session, check_timeout,
  conn_unless, check_if_lost, conn_after, conn, start_connection, close_connection, switch_state,
  check_state, process, min_timeout, max_timeout,
}

pub length-queue_error :
    {S : Type 0} (o : Outside S) (e : Err) (errors : List Err) (s : S)
    → length (queue_error o e errors s).0 ≤ max_background_errors
unfolding queue_error
length-queue_error o e [] s = omega arith
length-queue_error o e (x ∷ rest) s = ground (
  arith,
  length-queue_error o e rest (o.add_count drop_background_error s),
  length-append (x ∷ rest) (e ∷ []),
)

module _ {S : Type 0} (o : Outside S) (open_conns : S → List ℕ) (law : IsLawful o open_conns) where
  queue_error-open :
      (e : Err) (errors : List Err) (s : S) → open_conns (queue_error o e errors s).1 ≡ open_conns s
  unfolding queue_error
  queue_error-open e [] s = refl
  queue_error-open e (x ∷ rest) s = ground (
    arith,
    queue_error-open e rest (o.add_count drop_background_error s),
    law.counts drop_background_error s,
  )

  pub record IsValid (c : Connection) (s : S) : Type 0 where
    pub owns : open_conns s ≡ held c.helper
    pub bounded : length c.background_errors ≤ max_background_errors

  queue-IsValid :
      (e : Err) (c : Connection) (s : S)
      → IsValid c s
      → IsValid (queue_background_exception o e c s).0 (queue_background_exception o e c s).1
  unfolding queue_background_exception
  queue-IsValid e c s v = ground (
    arith,
    length-queue_error o e c.background_errors s,
    queue_error-open e c.background_errors s,
  )

  count-IsValid : (e : Event) (c : Connection) (s : S) → IsValid c s → IsValid c (o.add_count e s)
  count-IsValid e c s v = ground (arith, law.counts e s)

  reset-IsValid : (c : Connection) (s : S) → IsValid c s → IsValid (reset o c s).1 (reset o c s).2
  unfolding reset
  reset-IsValid c s v =
      let (dropped, h1, s1) = close_and_reset o c.helper s in
      let closed = close_and_reset-Owns o open_conns law c.helper s v.owns in
      ground (arith, get_zookeeper_connection-Owns o open_conns law h1 s1 closed)

  background-IsValid :
      (c : Connection) (s : S)
      → IsValid c s
      → IsValid (reset_in_background o c s).0 (reset_in_background o c s).1
  unfolding reset_in_background
  background-IsValid c s v = elim (Option-cases (reset o c s).0) [
    | inl fine ↦ rw (fine, reset_in_background) (reset-IsValid c s v)
    | inr (e, failed) ↦
        rw (failed, reset_in_background)
          (queue-IsValid e (reset o c s).1 (reset o c s).2 (reset-IsValid c s v))
  ]

  new_string-IsValid :
      (c : Connection) (s : S)
      → IsValid c s
      → IsValid (handle_new_connection_string o c s).0 (handle_new_connection_string o c s).1
  unfolding handle_new_connection_string
  new_string-IsValid c s v = background-IsValid c _ (count-IsValid connection_string_changed c s v)

  expired-IsValid :
      (c : Connection) (s : S)
      → IsValid c s
      → IsValid (handle_expired_session o c s).0 (handle_expired_session o c s).1
  unfolding handle_expired_session
  expired-IsValid c s v = background-IsValid c _ (count-IsValid session_expired c s v)

  deque-IsValid :
      (c : Connection) (s : S)
      → IsValid c s
      → IsValid (deque_background_exception o c s).1 (deque_background_exception o c s).2
  unfolding deque_background_exception
  deque-IsValid c s v = elim (List-cases c.background_errors) [
    | inl empty ↦ ground arith
    | inr (e, rest, more) ↦ ground (arith, law.counts background_exceptions s)
  ]

  check_timeout-IsValid :
      (c : Connection) (s : S)
      → IsValid c s
      → IsValid (check_timeout o c s).1 (check_timeout o c s).2
  unfolding check_timeout
  check_timeout-IsValid c s v =
      elim (Bool-cases (ltb_ℤ (o.since c.connection_start s) (min_timeout c))) [
        | inl early ↦ rw early v
        | inr late ↦ elim (Bool-cases (has_new_connection_string o c.helper s)) [
          | inl new ↦ rw late (rw new (new_string-IsValid c s v))
          | inr same ↦ elim (Bool-cases (ltb_ℤ (o.since c.connection_start s) (max_timeout c))) [
            | inl waiting ↦
                rw late (rw same (rw waiting (count-IsValid connections_timed_out c s v)))
            | inr over ↦
                rw late
                  (rw same (rw over (reset-IsValid c _ (count-IsValid session_timed_out c s v))))
          ]
        ]
      ]

  conn_unless-IsValid :
      (late : Option Err) (c : Connection) (s : S)
      → IsValid c s
      → IsValid (conn_unless o late c s).1 (conn_unless o late c s).2
  unfolding conn_unless
  conn_unless-IsValid none c s v =
      ground (arith, get_zookeeper_connection-Owns o open_conns law c.helper s)
  conn_unless-IsValid (some e) c s v = v

  check_if_lost-IsValid :
      (b : Bool) (c : Connection) (s : S)
      → IsValid c s
      → IsValid (check_if_lost o b c s).1 (check_if_lost o b c s).2
  unfolding check_if_lost
  check_if_lost-IsValid true c s v = v
  check_if_lost-IsValid false c s v = check_timeout-IsValid c s v

  conn_after-IsValid :
      (queued : Option Err) (c : Connection) (s : S)
      → IsValid c s
      → IsValid (conn_after o queued c s).1 (conn_after o queued c s).2
  unfolding conn_after
  conn_after-IsValid (some e) c s v = v
  conn_after-IsValid none c s v =
      let (late, c1, s1) = check_if_lost o c.is_connected c s in
      conn_unless-IsValid late c1 s1 (check_if_lost-IsValid c.is_connected c s v)

  pub conn-IsValid : (c : Connection) (s : S) → IsValid c s → IsValid (conn o c s).1 (conn o c s).2
  unfolding conn
  conn-IsValid c s v =
      let (queued, c1, s1) = deque_background_exception o c s in
      conn_after-IsValid queued c1 s1 (deque-IsValid c s v)

  pub start-IsValid :
      (c : Connection) (s : S)
      → IsValid c s
      → IsValid (start_connection o c s).1 (start_connection o c s).2
  unfolding start_connection
  start-IsValid c s v =
      let s1 = (o.start_ensemble s).1 in
      let v1 : IsValid c s1 = ground (arith, law.starts s) in
      elim (Option-cases (o.start_ensemble s).0) [
        | inl fine ↦ rw (fine, start_connection) (reset-IsValid c s1 v1)
        | inr (e, failed) ↦ rw (failed, start_connection) v1
      ]

  pub close-IsValid :
      (c : Connection) (s : S)
      → IsValid c s
      → IsValid (close_connection o c s).1 (close_connection o c s).2
  unfolding close_connection
  close-IsValid c s v =
      ground
        (arith, law.ends s, close_and_clear-Owns o open_conns law c.helper (o.close_ensemble s))

  switch-IsValid :
      (e : EventState) (c : Connection) (s : S)
      → IsValid c s
      → IsValid (switch_state o e c s).1 (switch_state o e c s).2
  unfolding switch_state
  switch-IsValid has_session c s v = v
  switch-IsValid expired c s v = expired-IsValid c s v
  switch-IsValid connecting c s v = v
  switch-IsValid connected c s v = v
  switch-IsValid disconnected c s v = v
  switch-IsValid other_state c s v = v

  check_state-IsValid :
      (e : EventState) (c : Connection) (s : S)
      → IsValid c s
      → IsValid (check_state o e c s).1 (check_state o e c s).2
  unfolding check_state
  check_state-IsValid e c s v =
      let (seen, c1, s1) = switch_state o e c s in
      let v1 = switch-IsValid e c s v in
      let look = seen.1 && has_new_connection_string o c1.helper s1 in
      elim (Bool-cases look) [
        | inl is_so ↦ rw is_so (new_string-IsValid c1 s1 v1)
        | inr is_not ↦ rw is_not v1
      ]

  pub process-IsValid :
      (of_session : Bool) (e : EventState) (c : Connection) (s : S)
      → IsValid c s
      → IsValid (process o of_session e c s).0 (process o of_session e c s).1
  unfolding process
  process-IsValid false e c s v = v
  process-IsValid true e c s v =
      let v1 = check_state-IsValid e c s v in
      elim (Bool-cases (same_bool (check_state o e c s).0 c.is_connected)) [
        | inl same ↦ rw same v1
        | inr other ↦ rw other ground arith
      ]
