-- ===== src/Framework/Life/Phases.antt =====
-- The two ways that Start and Close of a framework go (framework.go), and its calls of listeners.
use curator_go.Base.{◌≡◌, refl, ◌∙◌, true, false, none, some, ℕ, List, [], ◌∷◌, arith}
use curator_go.Errors.{started_twice}
use curator_go.State.{
  State, latent, started, stopped, same_state, change, compare_and_swap, Manager, new_manager,
}
use curator_go.State
use curator_go.Listeners.{Container, clear, for_each, visit}
use curator_go.Handle.{Outside}
use curator_go.Client.{ZookeeperClient, start_client, close_client}
use curator_go.Framework.Life.{Callbacks, CuratorFramework, start_framework, close_framework}

pub is_state : (a b : State) → same_state a b ≡ true → a ≡ b
is_state latent latent h = refl
is_state latent started h = absurd cc
is_state latent stopped h = absurd cc
is_state started latent h = absurd cc
is_state started started h = refl
is_state started stopped h = absurd cc
is_state stopped latent h = absurd cc
is_state stopped started h = absurd cc
is_state stopped stopped h = refl

module _ {S : Type 0} (open_conns : S → List ℕ) where
  pub visit-open :
      (callback : ℕ → S → S) (ls : List ℕ) (s : S)
      → ((l : ℕ) (t : S) → open_conns (callback l t) ≡ open_conns t)
      → open_conns (visit callback ls s) ≡ open_conns s
  unfolding visit
  visit-open callback [] s h = refl
  visit-open callback (l ∷ ls) s h = visit-open callback ls (callback l s) h ∙ h l s

  pub for_each-open :
      (callback : ℕ → S → S) (c : Container) (s : S)
      → ((l : ℕ) (t : S) → open_conns (callback l t) ≡ open_conns t)
      → open_conns (for_each callback c s) ≡ open_conns s
  unfolding for_each
  for_each-open callback none s h = refl
  for_each-open callback (some ls) s h = visit-open callback ls s h

module _ {S E : Type 0} (o : Outside S) (k : Callbacks S E) where
  pub start_client-started :
      (c : ZookeeperClient) (s : S) → c.started ≡ false → (start_client o c s).1.started ≡ true
  unfolding start_client compare_and_swap
  start_client-started c s h = ground arith

  -- The two ways that Start and Close go.
  pub start_latent :
      (f : CuratorFramework) (s : S)
      → f.state ≡ latent
      → (State.start f.manager).1 ≡ none
      → start_framework o k f s ≡ (
        (start_client o f.client s).0,
        record f {
          state = started;
          manager = (State.start f.manager).0;
          client = (start_client o f.client s).1;
        },
        (start_client o f.client s).2,
      )
  unfolding start_framework change
  start_latent f s h fine = ground arith

  pub start_again :
      (f : CuratorFramework) (s : S)
      → same_state f.state latent ≡ false
      → start_framework o k f s ≡ (some started_twice, f, s)
  unfolding start_framework change
  start_again f s h = ground arith

  abbrev pub told_closing : CuratorFramework → S → S
  told_closing f s =
      for_each (λ listener t. (k.event_received listener k.closing t).1) f.listeners s

  pub close_started :
      (f : CuratorFramework) (s : S)
      → f.state ≡ started
      → let (err, client, s2) = close_client o f.client (told_closing f s) in
        close_framework o k f s ≡ (
          err,
          record {
            state = stopped;
            manager = State.close f.manager;
            client = client;
            listeners = clear f.listeners;
            unhandled_error_listeners = clear f.unhandled_error_listeners;
          },
          s2,
        )
  unfolding close_framework change
  close_started f s h = ground arith

  pub close_other :
      (f : CuratorFramework) (s : S)
      → same_state f.state started ≡ false
      → close_framework o k f s ≡ (none, f, s)
  unfolding close_framework change
  close_other f s h = ground arith
