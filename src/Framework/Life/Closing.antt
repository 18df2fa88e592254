-- ===== src/Framework/Life/Closing.antt =====
-- What Close of a framework leaves (framework.go).
use curator_go.Base.{
  ◌≡◌, refl, sym, ◌∙◌, false, Option, none, some, ℕ, List, [], subst, length, ◌≤◌,
}
use curator_go.Errors.{Err}
use curator_go.State.{started, stopped}
use curator_go.State.Kept.{close-state}
use curator_go.Listeners.{Container, clear}
use curator_go.Listeners.Laws.{members}
use curator_go.Handle.{Outside}
use curator_go.Handle.Ownership.{IsLawful}
use curator_go.Session.Reach.{Reach-held}
use curator_go.Client.{ZookeeperClient, close_client}
use curator_go.Client.Life.{ClientReach, ClientStep, ClientReach-Reach, close_reached}
use curator_go.Framework.Life.{Callbacks, CuratorFramework, close_framework}
use curator_go.Framework.Life.Phases.{for_each-open, told_closing, close_started}
use curator_go.Framework.Life.Runs.{LifeReach, IsHarmless, LifeReach-Together}

module _ {S E : Type 0} (o : Outside S) (k : Callbacks S E) (open_conns : S → List ℕ)
    (harmless : IsHarmless o k open_conns) where
  -- What Close leaves.
  abbrev Ended : CuratorFramework → S → Type 0
  Ended f s =
      (open_conns s ≡ [])
      × (f.state ≡ stopped)
      × (f.manager.state ≡ stopped)
      × (f.client.started ≡ false)
      × (f.client.state.is_connected ≡ false)
      × (members f.listeners ≡ [])
      × (members f.unhandled_error_listeners ≡ [])

  closes_by : {a b : Option Err × CuratorFramework × S} → a ≡ b → Ended b.1 b.2 → Ended a.1 a.2
  closes_by e h = subst (λ (x : Option Err × CuratorFramework × S). Ended x.1 x.2) (sym e) h

  closed_client : (c : ZookeeperClient) (s : S) → (close_client o c s).1.started ≡ false
  unfolding close_client
  closed_client c s = refl

  members-clear : (c : Container) → members (clear c) ≡ []
  unfolding clear
  members-clear none = refl
  members-clear (some ls) = refl

  -- Closing a framework that is started ends all of it: on every run, with a lawful dialer and
  -- listeners that open and close no connection, Close leaves no connection open, the framework
  -- and its manager stopped, the client not started and not connected, and no listeners; before
  -- it, as at any time, at most one connection is open.
  pub close_framework-closes :
      {f : CuratorFramework} {s : S}
      → IsLawful o open_conns
      → LifeReach o k open_conns f s
      → f.state ≡ started
      → let (err, f', s') = close_framework o k f s in
        (length (open_conns s) ≤ 1)
        × (open_conns s' ≡ [])
        × (f'.state ≡ stopped)
        × (f'.manager.state ≡ stopped)
        × (f'.client.started ≡ false)
        × (f'.client.state.is_connected ≡ false)
        × (members f'.listeners ≡ [])
        × (members f'.unhandled_error_listeners ≡ [])
  close_framework-closes {f = f} {s = s} law r on =
      let v = LifeReach-Together o k open_conns harmless r in
      let s1 = told_closing o k f s in
      let (owns, few, bounded) =
        Reach-held o open_conns law (ClientReach-Reach o open_conns v.client_reached) in
      let quiet =
        for_each-open open_conns (λ listener t. (k.event_received listener k.closing t).1)
          f.listeners s (λ l t. harmless.receives l k.closing t) in
      let (none_open, lost) =
        close_reached o open_conns law {c = f.client} {s = s1}
          (ClientReach.next v.client_reached (ClientStep.elsewhere quiet)) in
      let (closed, life, manager_life, client_life, unconnected, no_listeners, no_handlers) =
        closes_by (close_started o k f s on) (
          none_open,
          refl,
          close-state f.manager (v.same_life ∙ on),
          closed_client f.client s1,
          lost,
          members-clear f.listeners,
          members-clear f.unhandled_error_listeners,
        ) in
      (few, closed, life, manager_life, client_life, unconnected, no_listeners, no_handlers)
