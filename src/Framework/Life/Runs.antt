-- ===== src/Framework/Life/Runs.antt =====
-- What holds of a framework (framework.go) along every run.
use curator_go.Base.{
  ◌≡◌, refl, sym, ap, ◌∙◌, Bool, false, Option, none, some, ℕ, List, [], subst, arith, ℤ,
  Option-cases, Bool-cases, inl, inr,
}
use curator_go.Errors.{Err}
use curator_go.State.{
  State, latent, started, stopped, same_state, change, compare_and_swap, Manager, new_manager,
  ConnectionState, lost, unknown, add_state_change,
}
use curator_go.State
use curator_go.State.Traces
use curator_go.State.Kept.{
  Stays, add_state_change-Stays, start-state, close-state, round-state, new-state,
}
use curator_go.Listeners.{Container, add, remove, for_each}
use curator_go.Handle.{Outside}
use curator_go.Session.{EventState, new_connection_state, process}
use curator_go.Client.{ZookeeperClient, close_client, client_conn}
use curator_go.Client.Life.{ClientReach, ClientStep}
use curator_go.Framework.Connection.{
  SessionState, validate_connection-Reach, validate_connection-Stays,
}
use curator_go.Framework.Life.{
  Callbacks, CuratorFramework, start_framework, close_framework, log_error, receive, process_event,
}
use curator_go.Framework.Life.Phases.{
  is_state, for_each-open, start_client-started, start_latent, start_again, told_closing,
  close_started, close_other,
}

module _ {S E : Type 0} (o : Outside S) (k : Callbacks S E) (open_conns : S → List ℕ) where
  -- One call of an operation of a framework, a listener that comes or goes, one event of its
  -- connection for its client or for its listeners, one round of its manager, the LOST of a sync for
  -- a suspended connection (it may also come late), a request for a connection, or something
  -- elsewhere.
  pub data LifeStep (f : CuratorFramework) (s : S) : CuratorFramework → S → Type 0 where
    starts : LifeStep f s (start_framework o k f s).1 (start_framework o k f s).2
    closes : LifeStep f s (close_framework o k f s).1 (close_framework o k f s).2
    listens : (l : ℕ) → LifeStep f s (record f { listeners = add l f.listeners }) s
    leaves : (l : ℕ) → LifeStep f s (record f { listeners = remove l f.listeners }) s
    minds :
        (l : ℕ)
        → LifeStep f s
            (record f { unhandled_error_listeners = add l f.unhandled_error_listeners })
            s
    forgets :
        (l : ℕ)
        → LifeStep f s
            (record f { unhandled_error_listeners = remove l f.unhandled_error_listeners })
            s
    loses :
        {r : Manager × Bool}
        → add_state_change f.manager lost ≡ some r
        → LifeStep f s (record f { manager = r.0 }) s
    processes :
        (event : E) (watched : Option SessionState) {r : CuratorFramework × Bool × S}
        → process_event o k event watched f s ≡ some r
        → LifeStep f s r.0 r.2
    tells :
        {m : Manager}
        → State.process_event f.manager ≡ some m
        → LifeStep f s (record f { manager = m }) s
    hears :
        (of_session : Bool) (e : EventState)
        → LifeStep f s
            (record f {
              client = record f.client { state = (process o of_session e f.client.state s).0 };
            })
            (process o of_session e f.client.state s).1
    asks :
        LifeStep f s
          (record f { client = (client_conn o f.client s).1 })
          (client_conn o f.client s).2
    elsewhere : {s' : S} → open_conns s' ≡ open_conns s → LifeStep f s f s'

  -- The framework, its manager and its client live together.
  pub record Together (f : CuratorFramework) (s : S) : Type 0 where
    pub manager_reached : Traces.Reach f.manager
    pub client_reached : ClientReach o open_conns f.client s
    pub same_life : f.manager.state ≡ f.state
    pub client_life : f.client.started ≡ same_state f.state started

  pub data LifeReach : CuratorFramework → S → Type 0 where
    new :
        (session_timeout connection_timeout : ℤ) (s : S)
        → open_conns s ≡ []
        → LifeReach
            (record {
              state = latent;
              manager = new_manager;
              client = record {
                started = false;
                state = new_connection_state o session_timeout connection_timeout s;
              };
              listeners = some [];
              unhandled_error_listeners = some [];
            })
            s
    next :
        {f : CuratorFramework} {s : S} {f' : CuratorFramework} {s' : S}
        → LifeReach f s
        → LifeStep f s f' s'
        → LifeReach f' s'

  -- What is assumed of the listeners: they open and close no connection.
  pub record IsHarmless : Type 0 where
    pub receives : (l : ℕ) (e : E) (t : S) → open_conns (k.event_received l e t).1 ≡ open_conns t
    pub handles : (l : ℕ) (e : Err) (t : S) → open_conns (k.unhandled_error l e t) ≡ open_conns t

  carry : {a b : Option Err × CuratorFramework × S} → a ≡ b → Together b.1 b.2 → Together a.1 a.2
  carry e h = subst (λ (x : Option Err × CuratorFramework × S). Together x.1 x.2) (sym e) h

  start-Together :
      (f : CuratorFramework) (s : S)
      → Together f s
      → Together (start_framework o k f s).1 (start_framework o k f s).2
  start-Together f s v = elim (Bool-cases (same_state f.state latent)) [
    | inr is_not ↦ carry (start_again o k f s is_not) v
    | inl is_so ↦
        let fresh = is_state f.state latent is_so in
        let (begun, fine) = start-state f.manager (v.same_life ∙ fresh) in
        let off : f.client.started ≡ false = v.client_life ∙ ap (λ x. same_state x started) fresh in
        carry (start_latent o k f s fresh fine) (record {
          manager_reached = Traces.Reach.next v.manager_reached Traces.Step.starts;
          client_reached = ClientReach.next v.client_reached ClientStep.starts;
          same_life = begun;
          client_life = start_client-started o k f.client s off;
        })
  ]

  module _ (harmless : IsHarmless) where
    close-Together :
        (f : CuratorFramework) (s : S)
        → Together f s
        → Together (close_framework o k f s).1 (close_framework o k f s).2
    unfolding close_client
    close-Together f s v = elim (Bool-cases (same_state f.state started)) [
      | inr is_not ↦ carry (close_other o k f s is_not) v
      | inl is_so ↦
          let on = is_state f.state started is_so in
          let s1 = told_closing o k f s in
          let quiet =
            for_each-open open_conns (λ listener t. (k.event_received listener k.closing t).1)
              f.listeners s (λ l t. harmless.receives l k.closing t) in
          carry (close_started o k f s on) (record {
            manager_reached = Traces.Reach.next v.manager_reached Traces.Step.closes;
            client_reached =
                ClientReach.next (ClientReach.next v.client_reached (ClientStep.elsewhere quiet))
                  ClientStep.closes;
            same_life = close-state f.manager (v.same_life ∙ on);
            client_life = refl;
          })
    ]

    receive-open :
        (f : CuratorFramework) (event : E) (l : ℕ) (t : S)
        → open_conns (receive o k f event l t) ≡ open_conns t
    unfolding receive log_error
    receive-open f event l t =
        let (err, t1) = k.event_received l event t in
        let received = harmless.receives l event t in
        elim (Option-cases (k.event_received l event t).0) [
          | inl fine ↦ rw (fine, receive) received
          | inr (e, failed) ↦
              rw (failed, receive)
                (for_each-open open_conns (λ listener u. k.unhandled_error listener e u)
                    f.unhandled_error_listeners t1 (λ l' u. harmless.handles l' e u)
                  ∙ received)
        ]

    returned :
        {a r : CuratorFramework × Bool × S} → some a ≡ some r → Together a.0 a.2 → Together r.0 r.2
    returned e h = subst (λ (x : CuratorFramework × Bool × S). Together x.0 x.2) (inside e) h
      where
        inside : {A : Type 0} {a b : A} → some a ≡ some b → a ≡ b
        inside p = cc

    process-Together :
        (event : E) (watched : Option SessionState) (f : CuratorFramework) (s : S)
        {r : CuratorFramework × Bool × S}
        → process_event o k event watched f s ≡ some r
        → Together f s
        → Together r.0 r.2
    unfolding process_event
    process-Together event none f s {r} e v =
        let quiet =
          for_each-open open_conns (receive o k f event) f.listeners s (receive-open f event) in
        returned e (record {
          manager_reached = v.manager_reached;
          client_reached = ClientReach.next v.client_reached (ClientStep.elsewhere quiet);
          same_life = v.same_life;
          client_life = v.client_life;
        })
    process-Together event (some seen) f s {r} e v =
        let quiet =
          for_each-open open_conns (receive o k f event) f.listeners s (receive-open f event) in
        let (out, valid, reached, syncs) = validate_connection-Reach seen v.manager_reached in
        let life = subst (Stays f.manager.state) valid (validate_connection-Stays seen f.manager) in
        let ends : process_event o k event (some seen) f s
            ≡ some (
              record f { manager = out.0 },
              out.1,
              for_each (receive o k f event) f.listeners s,
            ) =
          rw (valid, process_event) refl in
        returned (sym ends ∙ e) (record {
          manager_reached = reached;
          client_reached = ClientReach.next v.client_reached (ClientStep.elsewhere quiet);
          same_life = life ∙ v.same_life;
          client_life = v.client_life;
        })

    client_conn-started : (c : ZookeeperClient) (s : S) → (client_conn o c s).1.started ≡ c.started
    unfolding client_conn
    client_conn-started c s = elim (Bool-cases c.started) [
      | inl is_on ↦ ground arith
      | inr is_off ↦ ground arith
    ]

    -- Listeners are no part of it.
    same_parts :
        {f : CuratorFramework} {s : S} {listeners handlers : Container}
        → Together f s
        → Together (record f { listeners = listeners; unhandled_error_listeners = handlers }) s
    same_parts v = record {
      manager_reached = v.manager_reached;
      client_reached = v.client_reached;
      same_life = v.same_life;
      client_life = v.client_life;
    }

    step-Together :
        {f : CuratorFramework} {s : S} {f' : CuratorFramework} {s' : S}
        → LifeStep f s f' s'
        → Together f s
        → Together f' s'
    step-Together {f = f} {s = s} starts v = start-Together f s v
    step-Together {f = f} {s = s} closes v = close-Together f s v
    step-Together {f = f} {s = s} (listens l) v = same_parts v
    step-Together {f = f} {s = s} (leaves l) v = same_parts v
    step-Together {f = f} {s = s} (minds l) v = same_parts v
    step-Together {f = f} {s = s} (forgets l) v = same_parts v
    step-Together {f = f} {s = s} (loses e) v = record {
      manager_reached = Traces.Reach.next v.manager_reached (Traces.Step.changes lost (λ w. cc) e);
      client_reached = v.client_reached;
      same_life =
          subst (Stays f.manager.state) e (add_state_change-Stays f.manager lost) ∙ v.same_life;
      client_life = v.client_life;
    }
    step-Together {f = f} {s = s} (processes event watched e) v =
        process-Together event watched f s e v
    step-Together {f = f} {s = s} (tells e) v = record {
      manager_reached = Traces.Reach.next v.manager_reached (Traces.Step.tells e);
      client_reached = v.client_reached;
      same_life = round-state f.manager e ∙ v.same_life;
      client_life = v.client_life;
    }
    step-Together {f = f} {s = s} (hears of_session e) v = record {
      manager_reached = v.manager_reached;
      client_reached = ClientReach.next v.client_reached (ClientStep.hears of_session e);
      same_life = v.same_life;
      client_life = v.client_life;
    }
    step-Together {f = f} {s = s} asks v = record {
      manager_reached = v.manager_reached;
      client_reached = ClientReach.next v.client_reached ClientStep.asks;
      same_life = v.same_life;
      client_life = client_conn-started f.client s ∙ v.client_life;
    }
    step-Together {f = f} {s = s} (elsewhere same) v = record {
      manager_reached = v.manager_reached;
      client_reached = ClientReach.next v.client_reached (ClientStep.elsewhere same);
      same_life = v.same_life;
      client_life = v.client_life;
    }

    -- Along every run of a framework its manager and its client live with it: its connection state
    -- manager is latent, started or stopped exactly as the framework is, and what a run of its own
    -- reaches; its client is started exactly while the framework is, and is what a run of its
    -- own reaches. A start that fails in the client counts as a start. Listeners open and close no
    -- connection.
    pub LifeReach-Together : {f : CuratorFramework} {s : S} → LifeReach f s → Together f s
    LifeReach-Together (new session_timeout connection_timeout s h) = record {
      manager_reached = Traces.Reach.new;
      client_reached = ClientReach.new session_timeout connection_timeout s h;
      same_life = new-state;
      client_life = refl;
    }
    LifeReach-Together (next r step) = step-Together step (LifeReach-Together r)
