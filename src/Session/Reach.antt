-- ===== src/Session/Reach.antt =====
-- The runs of the session (state.go): any sequence of its operations and of events of its
-- connection, from a new session on.
use curator_go.Base.{ℕ, ◌≤◌, ◌≡◌, Bool, Option, none, some, List, [], arith, length, ℤ}
use curator_go.Handle.{Outside, Helper, factory, cache}
use curator_go.Handle.Ownership.{IsLawful, held}
use curator_go.Session.{
  Connection, EventState, max_background_errors, new_connection_state, conn, start_connection,
  close_connection, process,
}
use curator_go.Session.Runs.{IsValid, conn-IsValid, start-IsValid, close-IsValid, process-IsValid}

module _ {S : Type 0} (o : Outside S) (open_conns : S → List ℕ) where
  -- One call of an operation, one event, or something elsewhere that opens and closes nothing.
  pub data Step (c : Connection) (s : S) : Connection → S → Type 0 where
    starts : Step c s (start_connection o c s).1 (start_connection o c s).2
    closes : Step c s (close_connection o c s).1 (close_connection o c s).2
    asks : Step c s (conn o c s).1 (conn o c s).2
    hears :
        (of_session : Bool) (e : EventState)
        → Step c s (process o of_session e c s).0 (process o of_session e c s).1
    elsewhere : {s' : S} → open_conns s' ≡ open_conns s → Step c s c s'

  pub data Reach : Connection → S → Type 0 where
    new :
        (session_timeout connection_timeout : ℤ) (s : S)
        → open_conns s ≡ []
        → Reach (new_connection_state o session_timeout connection_timeout s) s
    next : {c c' : Connection} {s s' : S} → Reach c s → Step c s c' s' → Reach c' s'

  module _ (law : IsLawful o open_conns) where
    new-IsValid :
        (session_timeout connection_timeout : ℤ) (s : S)
        → open_conns s ≡ []
        → IsValid o open_conns law (new_connection_state o session_timeout connection_timeout s) s
    unfolding new_connection_state
    new-IsValid session_timeout connection_timeout s h = ground arith

    Step-IsValid :
        {c : Connection} {s : S} {c' : Connection} {s' : S}
        → Step c s c' s'
        → IsValid o open_conns law c s
        → IsValid o open_conns law c' s'
    Step-IsValid {c = c} {s = s} starts v = start-IsValid o open_conns law c s v
    Step-IsValid {c = c} {s = s} closes v = close-IsValid o open_conns law c s v
    Step-IsValid {c = c} {s = s} asks v = conn-IsValid o open_conns law c s v
    Step-IsValid {c = c} {s = s} (hears of_session e) v =
        process-IsValid o open_conns law of_session e c s v
    Step-IsValid (elsewhere same) v = ground arith

    Reach-Owned : {c : Connection} {s : S} → Reach c s → IsValid o open_conns law c s
    Reach-Owned (new session_timeout connection_timeout s h) =
        new-IsValid session_timeout connection_timeout s h
    Reach-Owned (next r step) = Step-IsValid step (Reach-Owned r)

    length-held : (h : Option Helper) → length (held h) ≤ 1
    length-held none = omega arith
    length-held (some factory) = omega arith
    length-held (some (cache text none)) = omega arith
    length-held (some (cache text (some n))) = omega arith

    -- Along every run of a session over a lawful dialer, whatever events come and whatever the provider
    -- and the clock answer, the connections that are open are the one that its handle holder keeps,
    -- so there is at most one, and no more than ten background errors wait.
    pub Reach-held :
        {c : Connection} {s : S}
        → Reach c s
        → (open_conns s ≡ held c.helper)
          × (length (open_conns s) ≤ 1)
          × (length c.background_errors ≤ max_background_errors)
    Reach-held {c = c} r =
        let v = Reach-Owned r in (v.owns, ground (arith, v.owns, length-held c.helper), v.bounded)
