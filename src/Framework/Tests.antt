-- ===== src/Framework/Tests.antt =====
-- Session events (framework.go) on a manager that has just started.
use curator_go.Base.{ℕ, ◌≡◌, Option, some, Bytes, pos, suc}
use curator_go.Errors.{Err, lost_connection}
use curator_go.State.{Manager, new_manager, start}
use curator_go.State.Traces.{Reach, Step}
use curator_go.Framework.Connection.{do_sync, do_sync-Reach}

abbrev running : Manager
running = (start new_manager).0

running-Reach : Reach running
running-Reach = Reach.next Reach.new Step.starts

abbrev fails : ℕ → Option Err × ℕ
fails s = (some lost_connection, suc s)

abbrev no_sync : Bytes → ℕ → (Bytes × Option Err) × ℕ
no_sync path s = ((path, some lost_connection), s)

do_sync-Reach_example :
    (r : ℕ × Manager) × (do_sync fails no_sync (λ s. pos s) (λ path s. s) 2 (pos 0) 0 running
      ≡ some r)
    × Reach r.1
do_sync-Reach_example =
    do_sync-Reach fails no_sync (λ s. pos s) (λ path s. s) 0 (pos 0) 0 running-Reach
