-- ===== src/Framework/Connection.antt =====
-- framework.go: what the client does on a session event, and the sync after a suspension.
use curator_go.Base.{
  ℕ, zero, suc, ◌≡◌, refl, ◌≢◌, Bool, true, false, not, ◌&&◌, ◌||◌, Option, none, some, subst,
  arith, if◌then◌else◌, Option-cases, Bool-cases, inl, inr, Bytes, ℤ, pos, negsuc, ltb_ℤ, text,
}
use curator_go.Errors.{Err}
use curator_go.State.{
  State, started, ConnectionState, lost, suspended, reconnected, read_only, unknown, Manager,
  set_to_suspended, add_state_change, same_state, same_connection,
}
use curator_go.State.Traces.{Reach, next, suspends, changes}
use curator_go.State.Kept.{Stays, set_to_suspended-Stays, add_state_change-Stays}
use curator_go.State.Operations.{Changes, add_state_change_lem, set_to_suspended_lem}

-- The session states of the package go-zookeeper that the code tells apart.
pub data SessionState : Type 0 where
  disconnected expired sync_connected connected_read_only other_state : SessionState

-- suspendConnection: the Boolean says whether it starts doSyncForSuspendedConnection.
suspend_connection : Manager → Option (Manager × Bool)
suspend_connection m = set_to_suspended m

-- An added state change starts nothing.
abbrev pub without_sync : Option (Manager × Bool) → Option (Manager × Bool)
without_sync none = none
without_sync (some (m, changed)) = some (m, false)

pub validate_connection : SessionState → Manager → Option (Manager × Bool)
unfolding suspend_connection
validate_connection disconnected m = suspend_connection m
validate_connection expired m = without_sync (add_state_change m lost)
validate_connection sync_connected m = without_sync (add_state_change m reconnected)
validate_connection connected_read_only m = without_sync (add_state_change m read_only)
validate_connection other_state m = some (m, false)

abbrev pub same_index : ℤ → ℤ → Bool
same_index a b = not (ltb_ℤ a b) && not (ltb_ℤ b a)

module _ {S : Type 0} (connect : S → Option Err × S) (sync : Bytes → S → (Bytes × Option Err) × S)
    (instance_index : S → ℤ) (tell_synced : Bytes → S → S) where
  -- doSyncForSuspendedConnection, with the goroutine that it starts for a new connection run after
  -- it. `tell_synced` is the processEvent of the SYNC event.
  pub do_sync : ℕ → ℤ → S → Manager → Option (S × Manager)
  do_sync zero index s m = none
  do_sync (suc fuel) index s m =
      let (err, s1) = connect s in
      let (synced, s2) = sync (text "/") s1 in
      let failed : S = elim err [ none ↦ s2 | some e ↦ s1 ] in
      let lost_now : Option (S × Manager) = elim (add_state_change m lost) [
        | none ↦ none
        | some (m', changed) ↦ some (failed, m')
      ] in
      let again = do_sync fuel (negsuc 0) failed m in
      let fine : Bool = elim err [
        | some e ↦ false
        | none ↦ elim (synced.1) [ none ↦ true | some e ↦ false ]
      ] in
      if fine
      then some (tell_synced synced.0 s2, m)
      else if ltb_ℤ index (pos 0) || same_index index (instance_index failed)
      then lost_now
      else again

change_reached :
    {m : Manager} (s : ConnectionState)
    → s ≢ unknown
    → Reach m
    → (r : Manager × Bool) × (add_state_change m s ≡ some r) × Reach r.0
change_reached {m} s known h = elim (Option-cases (add_state_change m s)) [
  | inl out ↦ absurd (
      never (same_state m.state started && not (same_connection m.current s)) out
        (add_state_change_lem s h))
  | inr (r, e) ↦ (r, e, next h (changes s known e))
]
  where
    never : (wanted : Bool) {o : Option (Manager × Bool)} → o ≡ none → Changes m s wanted o → ⊥
    never wanted e c = subst (Changes m s wanted) e c

suspend_reached :
    {m : Manager}
    → Reach m
    → (r : Manager × Bool) × (set_to_suspended m ≡ some r)
      × Reach r.0
      × (r.1 ≡ true → r.0.current ≡ suspended)
suspend_reached {m} h = elim (Option-cases (set_to_suspended m)) [
  | inl out ↦ absurd (subst (Changes m suspended wanted) out (set_to_suspended_lem h))
  | inr (r, e) ↦ (
    r,
    e,
    next h (suspends e),
    became wanted r (subst (Changes m suspended wanted) e (set_to_suspended_lem h)),
  )
]
  where
    wanted : Bool
    wanted =
        same_state m.state started
        && not (same_connection m.current lost || same_connection m.current suspended)

    became :
        (w : Bool) (r : Manager × Bool)
        → Changes m suspended w (some r)
        → r.1 ≡ true
        → r.0.current ≡ suspended
    became true r c e = c.1
    became false r c e = absurd (ground arith)

-- What an event of a session does to a manager that a run has reached: the call returns, and what
-- it leaves is reached by the run that goes on with it. A sync is started only by a disconnection
-- that suspends the manager.
pub validate_connection-Reach :
    {m : Manager} (e : SessionState)
    → Reach m
    → (r : Manager × Bool) × (validate_connection e m ≡ some r)
      × Reach r.0
      × (r.1 ≡ true → (e ≡ disconnected) × (r.0.current ≡ suspended))
unfolding validate_connection suspend_connection
validate_connection-Reach disconnected h =
    let (r, e, reached, became) = suspend_reached h in (r, e, reached, λ w. (refl, became w))
validate_connection-Reach expired h =
    let (r, e, reached) = change_reached lost (λ w. cc) h in ((r.0, false), rw e, reached, λ w. cc)
validate_connection-Reach sync_connected h =
    let (r, e, reached) = change_reached reconnected (λ w. cc) h in
    ((r.0, false), rw e, reached, λ w. cc)
validate_connection-Reach connected_read_only h =
    let (r, e, reached) = change_reached read_only (λ w. cc) h in
    ((r.0, false), rw e, reached, λ w. cc)
validate_connection-Reach {m} other_state h = ((m, false), refl, h, λ w. cc)

without_sync-Stays :
    (life : State) (o : Option (Manager × Bool)) → Stays life o → Stays life (without_sync o)
without_sync-Stays life none h = tt
without_sync-Stays life (some r) h = h

-- The life of the manager goes on.
pub validate_connection-Stays :
    (e : SessionState) (m : Manager) → Stays m.state (validate_connection e m)
unfolding validate_connection suspend_connection
validate_connection-Stays disconnected m = set_to_suspended-Stays m
validate_connection-Stays expired m =
    without_sync-Stays m.state (add_state_change m lost) (add_state_change-Stays m lost)
validate_connection-Stays sync_connected m =
    without_sync-Stays m.state (add_state_change m reconnected)
      (add_state_change-Stays m reconnected)
validate_connection-Stays connected_read_only m =
    without_sync-Stays m.state (add_state_change m read_only) (add_state_change-Stays m read_only)
validate_connection-Stays other_state m = refl

module _ {S : Type 0} (connect : S → Option Err × S) (sync : Bytes → S → (Bytes × Option Err) × S)
    (instance_index : S → ℤ) (tell_synced : Bytes → S → S) where
  do_sync-again :
      {m : Manager} (fuel : ℕ) (s : S)
      → Reach m
      → (r : S × Manager) × (do_sync connect sync instance_index tell_synced
            (suc fuel)
            (negsuc 0)
            s
            m
          ≡ some r)
        × Reach r.1
  unfolding do_sync
  do_sync-again {m} fuel s h =
      let (changed, e, reached) = change_reached lost (λ w. cc) h in
      elim (Option-cases (connect s).0) [
        | inl fine ↦ elim (Option-cases (sync (text "/") (connect s).1).0.1) [
          | inl synced ↦ (
            (tell_synced (sync (text "/") (connect s).1).0.0 (sync (text "/") (connect s).1).1, m),
            ground arith,
            h,
          )
          | inr (err, bad) ↦ (((sync (text "/") (connect s).1).1, changed.0), ground arith, reached)
        ]
        | inr (err, bad) ↦ (((connect s).1, changed.0), ground arith, reached)
      ]

  -- The sync after a suspension ends within two rounds, whatever the connection does, and leaves a
  -- manager that the run reaches.
  pub do_sync-Reach :
      {m : Manager} (fuel : ℕ) (index : ℤ) (s : S)
      → Reach m
      → (r : S × Manager) × (do_sync connect sync instance_index tell_synced
            (suc (suc fuel))
            index
            s
            m
          ≡ some r)
        × Reach r.1
  unfolding do_sync
  do_sync-Reach {m} fuel index s h =
      let (changed, e, reached) = change_reached lost (λ w. cc) h in
      let s1 = (connect s).1 in
      let s2 = (sync (text "/") s1).1 in
      elim (Option-cases (connect s).0) [
        | inl fine ↦ elim (Option-cases (sync (text "/") s1).0.1) [
          | inl synced ↦ ((tell_synced (sync (text "/") s1).0.0 s2, m), ground arith, h)
          | inr (err, bad) ↦
              elim (Bool-cases (ltb_ℤ index (pos 0) || same_index index (instance_index s2))) [
                | inl same ↦ ((s2, changed.0), ground arith, reached)
                | inr renewed ↦
                    let (r, again, later) = do_sync-again fuel s2 h in (r, ground arith, later)
              ]
        ]
        | inr (err, bad) ↦
            elim (Bool-cases (ltb_ℤ index (pos 0) || same_index index (instance_index s1))) [
              | inl same ↦ ((s1, changed.0), ground arith, reached)
              | inr renewed ↦
                  let (r, again, later) = do_sync-again fuel s1 h in (r, ground arith, later)
            ]
      ]
