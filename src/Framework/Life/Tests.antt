-- ===== src/Framework/Life/Tests.antt =====
-- A framework (framework.go) that is started and closed over a small dialer.
use curator_go.Base.{ℕ, ◌≡◌, ◌≤◌, refl, false, none, some, List, [], ◌∷◌, length, pos}
use curator_go.State.{latent, started, stopped, change, start, new_manager}
use curator_go.Listeners.{add}
use curator_go.Listeners.Laws.{members}
use curator_go.Session.{new_connection_state}
use curator_go.Session.Sample.{sample, sample-IsLawful}
use curator_go.Framework.Life.{Callbacks, CuratorFramework, start_framework, close_framework}
use curator_go.Framework.Life.Runs.{LifeReach, LifeStep, IsHarmless, Together, LifeReach-Together}
use curator_go.Framework.Life.Closing.{close_framework-closes}

abbrev silent : Callbacks (List ℕ) ℕ
silent = record { event_received = λ l e s. (none, s); unhandled_error = λ l e s. s; closing = 0 }

silent-IsHarmless : IsHarmless sample silent (λ s. s)
silent-IsHarmless = record { receives = λ l e t. refl; handles = λ l e t. refl }

abbrev fresh : CuratorFramework
fresh = record {
  state = latent;
  manager = new_manager;
  client = record { started = false; state = new_connection_state sample (pos 10) (pos 5) [] };
  listeners = some [];
  unhandled_error_listeners = some [];
}

abbrev begun : CuratorFramework
begun = (start_framework sample silent fresh []).1

abbrev after_start : List ℕ
after_start = (start_framework sample silent fresh []).2

begun-LifeReach : LifeReach sample silent (λ s. s) begun after_start
begun-LifeReach = LifeReach.next (LifeReach.new (pos 10) (pos 5) [] refl) LifeStep.starts

LifeReach-Together_example : Together sample silent (λ s. s) begun after_start
LifeReach-Together_example =
    LifeReach-Together sample silent (λ s. s) silent-IsHarmless begun-LifeReach

-- A listener of each kind comes before Close.
abbrev watched : CuratorFramework
watched = record begun { listeners = some (4 ∷ []); unhandled_error_listeners = some (7 ∷ []) }

begun_listeners : (begun.listeners ≡ some []) × (begun.unhandled_error_listeners ≡ some [])
unfolding start_framework change start new_manager
begun_listeners = (refl, refl)

watched-LifeReach : LifeReach sample silent (λ s. s) watched after_start
unfolding add start_framework start new_manager
watched-LifeReach =
    LifeReach.next (LifeReach.next begun-LifeReach (LifeStep.listens 4)) (LifeStep.minds 7)

begun_state : begun.state ≡ started
unfolding start_framework change start new_manager
begun_state = refl

close_framework-closes_example :
    let (err, f', s') = close_framework sample silent watched after_start in
    (length after_start ≤ 1)
    × (s' ≡ [])
    × (f'.state ≡ stopped)
    × (f'.manager.state ≡ stopped)
    × (f'.client.started ≡ false)
    × (f'.client.state.is_connected ≡ false)
    × (members f'.listeners ≡ [])
    × (members f'.unhandled_error_listeners ≡ [])
close_framework-closes_example =
    close_framework-closes sample silent (λ s. s) silent-IsHarmless sample-IsLawful
      watched-LifeReach begun_state
