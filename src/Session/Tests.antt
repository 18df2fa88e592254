-- ===== src/Session/Tests.antt =====
-- Runs of a session (state.go).
use curator_go.Base.{
  ◌+◌, ◌%◌, ◌≤◌, ◌≡◌, refl, true, false, some, List, [], ◌∷◌, map, length, arith, pos, bytes_eq,
  if◌then◌else◌,
}
use curator_go.Errors.{Err, connection_loss, timed_out}
use curator_go.Handle.{cache, has_new_connection_string}
use curator_go.Handle.Ownership.{held}
use curator_go.Handle.Redial.{IsSteady}
use curator_go.State.{same_bool}
use curator_go.Session.{
  Connection, has_session, two_64, max_background_errors, new_connection_state, start_connection,
  process,
}
use curator_go.Session.Reach.{Step, Reach, Reach-held}
use curator_go.Session.Stall.{IsStalled, conns, conns-IsStalled}
use curator_go.Session.Backlog.{queue_all, conn_errors, conn_errors-queue_all}
use curator_go.Session.Events.{process_lem}
use curator_go.Session.Sample.{sample, sample-IsLawful}

abbrev fresh : Connection
fresh = new_connection_state sample (pos 10) (pos 5) []

abbrev begun : Connection
begun = (start_connection sample fresh []).1

begun-Reach : Reach sample (λ s. s) begun (start_connection sample fresh []).2
begun-Reach = Reach.next (Reach.new (pos 10) (pos 5) [] refl) Step.starts

Reach-held_example :
    ((start_connection sample fresh []).2 ≡ held begun.helper)
    × (length (start_connection sample fresh []).2 ≤ 1)
    × (length begun.background_errors ≤ max_background_errors)
Reach-held_example = Reach-held sample (λ s. s) sample-IsLawful begun-Reach

-- A session that waits for its first event for longer than its timeouts.
abbrev waiting : Connection
waiting = record fresh { helper = some (cache [] (some 0)) }

sample-IsSteady : IsSteady sample []
sample-IsSteady = record { strings = λ s. refl; dials = λ s. refl }

waiting-IsStalled : IsStalled sample [] waiting
unfolding new_connection_state
waiting-IsStalled = record {
  quiet = refl;
  lost = refl;
  dialed = (some 0, refl);
  over_session = λ s. refl;
  over_connection = λ s. refl;
}

conns-IsStalled_example :
    ((conns sample [] 3 waiting (0 ∷ [])).0.instance_index ≡ (waiting.instance_index + 3) % two_64)
    × IsStalled sample [] (conns sample [] 3 waiting (0 ∷ [])).0
unfolding new_connection_state
conns-IsStalled_example =
    conns-IsStalled sample [] sample-IsSteady 3 waiting (0 ∷ []) waiting-IsStalled (omega arith)

abbrev failures : List Err
failures = connection_loss ∷ timed_out ∷ []

conn_errors-queue_all_example :
    conn_errors sample 2
      (queue_all sample failures fresh []).0
      (queue_all sample failures fresh []).1
    ≡ map some failures
unfolding new_connection_state
conn_errors-queue_all_example = conn_errors-queue_all sample failures fresh [] (omega arith)

process_lem_example :
    let (c', s') = process sample true has_session waiting (0 ∷ []) in
    (c'.is_connected ≡ true)
    × (c'.instance_index ≡ 0)
    × (c'.connection_start
        ≡ (if same_bool c'.is_connected false then waiting.connection_start else 0))
unfolding new_connection_state has_new_connection_string bytes_eq
process_lem_example = process_lem sample true has_session waiting (0 ∷ [])
