-- ===== src/Session/Events.antt =====
-- What an event of the connection does to the session (state.go).
use curator_go.Base.{
  ◌+◌, ◌%◌, ◌≡◌, refl, Bool, true, false, not, ◌&&◌, ◌||◌, arith, if◌then◌else◌, Bool-cases,
  Option-cases, inl, inr,
}
use curator_go.Handle.{
  Outside, has_new_connection_string, connection_string_changed, session_expired,
}
use curator_go.State.{same_bool}
use curator_go.Session.{
  Connection, EventState, has_session, expired, connecting, connected, disconnected, other_state,
  two_64, queue_background_exception, reset, reset_in_background, handle_new_connection_string,
  handle_expired_session, switch_state, check_state, process,
}

abbrev pub is_has_session : EventState → Bool
is_has_session has_session = true
is_has_session _ = false

abbrev pub is_expired : EventState → Bool
is_expired expired = true
is_expired _ = false

-- What a reset leaves of the session.
abbrev Restarted : Connection → Connection → Type 0
Restarted c c' =
    (c'.is_connected ≡ false)
    × (c'.instance_index ≡ (c.instance_index + 1) % two_64)
    × (c'.connection_start ≡ c.connection_start)

-- The answer of checkState for an event, and the instance index that it leaves.
abbrev Seen : Connection → Bool × Connection → EventState → Bool → Type 0
Seen c (is_connected, c') e new_string =
    (is_connected ≡ (is_has_session e && not new_string))
    × (c'.instance_index ≡ (
        if is_expired e || new_string then (c.instance_index + 1) % two_64 else c.instance_index))
    × (c'.connection_start ≡ c.connection_start)
    × (is_connected ≡ c.is_connected → c'.is_connected ≡ is_connected)

module _ {S : Type 0} (o : Outside S) where
  reset_in_background-Restarted :
      (c : Connection) (s : S) → Restarted c (reset_in_background o c s).0
  unfolding reset_in_background reset queue_background_exception
  reset_in_background-Restarted c s = elim (Option-cases (reset o c s).0) [
    | inl fine ↦ ground arith
    | inr (e, failed) ↦ ground arith
  ]

  expired-Restarted : (c : Connection) (s : S) → Restarted c (handle_expired_session o c s).0
  unfolding handle_expired_session
  expired-Restarted c s = reset_in_background-Restarted c (o.add_count session_expired s)

  new_string-Restarted :
      (c : Connection) (s : S) → Restarted c (handle_new_connection_string o c s).0
  unfolding handle_new_connection_string
  new_string-Restarted c s =
      reset_in_background-Restarted c (o.add_count connection_string_changed s)

  -- The states that start nothing themselves.
  look-Seen :
      (e : EventState) (c : Connection) (s : S)
      → is_expired e ≡ false
      → switch_state o e c s ≡ ((is_has_session e, true), c, s)
      → Seen c
          ((check_state o e c s).0, (check_state o e c s).1)
          e
          (has_new_connection_string o c.helper s)
  unfolding check_state
  look-Seen e c s calm same = elim (Bool-cases (has_new_connection_string o c.helper s)) [
    | inl is_new ↦ ground (arith, new_string-Restarted c s)
    | inr is_same ↦ ground arith
  ]

  check_state-Seen :
      (e : EventState) (c : Connection) (s : S)
      → Seen c
          ((check_state o e c s).0, (check_state o e c s).1)
          e
          (has_new_connection_string o c.helper s)
  unfolding check_state switch_state
  check_state-Seen has_session c s = look-Seen has_session c s refl refl
  check_state-Seen expired c s = ground (arith, expired-Restarted c s)
  check_state-Seen connecting c s = look-Seen connecting c s refl refl
  check_state-Seen connected c s = look-Seen connected c s refl refl
  check_state-Seen disconnected c s = look-Seen disconnected c s refl refl
  check_state-Seen other_state c s = look-Seen other_state c s refl refl

  same_bool_eq : (a b : Bool) → same_bool a b ≡ true → a ≡ b
  same_bool_eq true b h = ground arith
  same_bool_eq false b h = ground arith

  -- An event of the session's own type leaves the session connected exactly if it is HasSession and
  -- the provider's connection string is the one in use. The session is reset, once, exactly if
  -- it has expired or the string is a new one, and the time of the last change is now exactly if the
  -- session was not as connected before. An event of another type changes nothing.
  pub process_lem :
      (of_session : Bool) (e : EventState) (c : Connection) (s : S)
      → let (c', s') = process o of_session e c s in
        let new_string = has_new_connection_string o c.helper s in
        if of_session
        then ((c'.is_connected ≡ (is_has_session e && not new_string))
            × (c'.instance_index ≡ (
                if is_expired e || new_string
                then (c.instance_index + 1) % two_64
                else c.instance_index))
            × (c'.connection_start ≡ (
                if same_bool c'.is_connected c.is_connected then c.connection_start else o.now s')))
        else ((c' ≡ c) × (s' ≡ s))
  unfolding process
  process_lem false e c s = (refl, refl)
  process_lem true e c s =
      let seen = check_state-Seen e c s in
      let now_connected = (check_state o e c s).0 in
      elim (Bool-cases (same_bool now_connected c.is_connected)) [
        | inl same ↦ ground (arith, same_bool_eq now_connected c.is_connected same)
        | inr other ↦ ground arith
      ]
