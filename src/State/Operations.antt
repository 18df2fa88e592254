-- ===== src/State/Operations.antt =====
-- What AddStateChange and SetToSuspended (state.go) do to a manager that a run has reached.
use curator_go.Base.{
  ◌≡◌, refl, Bool, Bool-cases, true, false, not, ◌&&◌, ◌||◌, Option, none, some, List, arith,
  Option-cases, inl, inr,
}
use curator_go.State.{
  same_state, same_connection, State, latent, started, stopped, ConnectionState, suspended, lost,
  Manager, local_state, add_state_change, set_to_suspended, state_queue_size,
}
use curator_go.State.Traces.{Reach, Reach-IsValid, posted, post_state-posted}

is_started : (s : State) → same_state s started ≡ true → s ≡ started
is_started latent e = cc
is_started started e = refl
is_started stopped e = cc

-- The result of a call that returns: true for a manager that runs in another state than `s`, which
-- becomes the current one; false for any other, which is left as it is.
abbrev pub Changes : Manager → ConnectionState → Bool → Option (Manager × Bool) → Type 0
Changes m s wanted none = ⊥
Changes m s true (some (m', b)) = (b ≡ true) × (m'.current ≡ s) × (m'.state ≡ started)
Changes m s false (some (m', b)) = (b ≡ false) × (m' ≡ m)

-- What runs has a channel.
has_queue :
    {m : Manager}
    → Reach m
    → m.state ≡ started
    → (queue : List ConnectionState) × (m.events ≡ some queue)
      × (m.closed ≡ false)
      × (m.queue_size ≡ state_queue_size)
has_queue {m} r run =
    let v = Reach-IsValid r in
    elim (Option-cases m.events) [
      | inl no_queue ↦ absurd (ground arith)
      | inr (queue, e) ↦ (queue, e, (v.running run).0, v.size)
    ]

-- On a manager that a run has reached, AddStateChange returns without waiting: it returns true and
-- makes the new state the current one exactly if the manager is started and in another state, and
-- otherwise it returns false and changes nothing.
pub add_state_change_lem :
    {m : Manager} (s : ConnectionState)
    → Reach m
    → Changes m s
        (same_state m.state started && not (same_connection m.current s))
        (add_state_change m s)
unfolding add_state_change posted
add_state_change_lem {m} s r = elim (Bool-cases (same_state m.state started)) [
  | inr idle ↦ ground arith
  | inl run ↦ elim (Bool-cases (same_connection m.current s)) [
    | inl same ↦ ground arith
    | inr other ↦
        let (queue, e, c, z) = has_queue r (is_started m.state run) in
        let (m1, told) = local_state (record m { current = s }) s in
        ground (arith, post_state-posted m1 told queue)
  ]
]

-- The same of SetToSuspended, which leaves a manager alone that is suspended or lost.
pub set_to_suspended_lem :
    {m : Manager}
    → Reach m
    → Changes m suspended
        (same_state m.state started
          && not (same_connection m.current lost || same_connection m.current suspended))
        (set_to_suspended m)
unfolding set_to_suspended posted
set_to_suspended_lem {m} r = elim (Bool-cases (same_state m.state started)) [
  | inr idle ↦ ground arith
  | inl run ↦
      elim (Bool-cases (same_connection m.current lost || same_connection m.current suspended)) [
        | inl same ↦ ground arith
        | inr other ↦
            let (queue, e, c, z) = has_queue r (is_started m.state run) in
            ground (arith, post_state-posted (record m { current = suspended }) suspended queue)
      ]
]
