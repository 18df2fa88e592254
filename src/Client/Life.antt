-- ===== src/Client/Life.antt =====
-- The life of a client (client.go): its runs, and what it leaves open when it is closed.
use curator_go.Base.{ℕ, ◌≡◌, refl, ◌∙◌, Bool, false, List, [], Bool-cases, inl, inr, length, ◌≤◌, ℤ}
use curator_go.State.{compare_and_swap}
use curator_go.Handle.{Outside}
use curator_go.Handle.Ownership.{IsLawful, held, close_and_clear-Owns, close_and_clear-held}
use curator_go.Session.{Connection, EventState, new_connection_state, close_connection, process}
use curator_go.Session.Reach.{Reach, Step, Reach-held}
use curator_go.Client.{
  AuthInfo, Authorizer, authorizing, ZookeeperClient, start_client, close_client, client_conn,
}
use curator_go.Client.Auth.{authorizing-IsLawful}

module _ {S : Type 0} (o : Outside S) (open_conns : S → List ℕ) where
  -- One call of an operation of a client, one event of its connection, or something elsewhere.
  pub data ClientStep (c : ZookeeperClient) (s : S) : ZookeeperClient → S → Type 0 where
    starts : ClientStep c s (start_client o c s).1 (start_client o c s).2
    closes : ClientStep c s (close_client o c s).1 (close_client o c s).2
    asks : ClientStep c s (client_conn o c s).1 (client_conn o c s).2
    hears :
        (of_session : Bool) (e : EventState)
        → ClientStep c s
            (record c { state = (process o of_session e c.state s).0 })
            (process o of_session e c.state s).1
    elsewhere : {s' : S} → open_conns s' ≡ open_conns s → ClientStep c s c s'

  pub data ClientReach : ZookeeperClient → S → Type 0 where
    new :
        (session_timeout connection_timeout : ℤ) (s : S)
        → open_conns s ≡ []
        → ClientReach
            (record {
              started = false;
              state = new_connection_state o session_timeout connection_timeout s;
            })
            s
    next :
        {c : ZookeeperClient} {s : S} {c' : ZookeeperClient} {s' : S}
        → ClientReach c s
        → ClientStep c s c' s'
        → ClientReach c' s'

  start-Reach :
      (c : ZookeeperClient) (s : S)
      → Reach o open_conns c.state s
      → Reach o open_conns (start_client o c s).1.state (start_client o c s).2
  unfolding start_client compare_and_swap
  start-Reach c s r = elim (Bool-cases c.started) [
    | inl is_on ↦ simp is_on r
    | inr is_off ↦ simp is_off (Reach.next r Step.starts)
  ]

  conn-Reach :
      (c : ZookeeperClient) (s : S)
      → Reach o open_conns c.state s
      → Reach o open_conns (client_conn o c s).1.state (client_conn o c s).2
  unfolding client_conn
  conn-Reach c s r = elim (Bool-cases c.started) [
    | inl is_on ↦ simp is_on (Reach.next r Step.asks)
    | inr is_off ↦ simp is_off r
  ]

  step-Reach :
      {c : ZookeeperClient} {s : S} {c' : ZookeeperClient} {s' : S}
      → ClientStep c s c' s'
      → Reach o open_conns c.state s
      → Reach o open_conns c'.state s'
  unfolding close_client
  step-Reach {c = c} {s = s} starts r = start-Reach c s r
  step-Reach {c = c} {s = s} closes r = Reach.next r Step.closes
  step-Reach {c = c} {s = s} asks r = conn-Reach c s r
  step-Reach {c = c} {s = s} (hears of_session e) r = Reach.next r (Step.hears of_session e)
  step-Reach (elsewhere same) r = Reach.next r (Step.elsewhere same)

  -- The session of a client runs as a session does.
  pub ClientReach-Reach :
      {c : ZookeeperClient} {s : S} → ClientReach c s → Reach o open_conns c.state s
  ClientReach-Reach (new session_timeout connection_timeout s h) =
      Reach.new session_timeout connection_timeout s h
  ClientReach-Reach (next r step) = step-Reach step (ClientReach-Reach r)

  module _ (law : IsLawful o open_conns) where
    close_connection-closes :
        (c : Connection) (s : S)
        → open_conns s ≡ held c.helper
        → (open_conns (close_connection o c s).2 ≡ [])
          × ((close_connection o c s).1.is_connected ≡ false)
    unfolding close_connection
    close_connection-closes c s owns =
        let s1 = o.close_ensemble s in
        (
          close_and_clear-Owns o open_conns law c.helper s1 (law.ends s ∙ owns)
              ∙ close_and_clear-held o open_conns law c.helper s1,
          refl,
        )

    pub close_reached :
        {c : ZookeeperClient} {s : S}
        → ClientReach c s
        → (open_conns (close_client o c s).2 ≡ [])
          × ((close_client o c s).1.state.is_connected ≡ false)
    unfolding close_client
    close_reached {c = c} {s = s} r =
        let (owns, few, bounded) = Reach-held o open_conns law (ClientReach-Reach r) in
        close_connection-closes c.state s owns

-- Along every run of a client, from a new one on, at most one connection is open, also if
-- authorizations are refused, and Close leaves none open and the session not connected. The dialer
-- that the client was given and Close of a connection are lawful, and adding an authorization
-- opens and closes nothing.
pub close_client-closes :
    {S : Type 0} (o : Outside S) (open_conns : S → List ℕ) (add_auth : Authorizer S)
    (infos : List AuthInfo) {c : ZookeeperClient} {s : S}
    → IsLawful o open_conns
    → ((n : ℕ) (info : AuthInfo) (t : S) → open_conns (add_auth n info t).1 ≡ open_conns t)
    → ClientReach (authorizing o add_auth infos) open_conns c s
    → let (err, c', s') = close_client (authorizing o add_auth infos) c s in
      (length (open_conns s) ≤ 1) × (open_conns s' ≡ []) × (c'.state.is_connected ≡ false)
close_client-closes o open_conns add_auth infos law adds r =
    let law' = authorizing-IsLawful o open_conns law add_auth adds infos in
    let o' = authorizing o add_auth infos in
    let (owns, few, bounded) = Reach-held o' open_conns law' (ClientReach-Reach o' open_conns r) in
    let (closed, lost) = close_reached o' open_conns law' r in (few, closed, lost)
