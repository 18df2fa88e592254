-- ===== src/NodeCache/Idle.antt =====
-- A node cache (recipes/cache.go) that no connection state is reported to.
use curator_go.Base.{
  ◌≡◌, refl, ◌∙◌, Bool, true, false, none, List, [], ◌∷◌, arith, Option-cases, Bool-cases, inl, inr,
}
use curator_go.Errors.{is_no_node}
use curator_go.State.{latent, started, stopped, same_state, change}
use curator_go.NodeCache.{
  CacheClient, NodeCache, new_node_cache, internal_rebuild, reset, initialize, start_and_initialize,
  close, state_changed, watch_fired,
}

-- What may happen to a cache while no connection is reported to it.
pub data Action : Type 0 where
  starts : (build_initial : Bool) → Action
  closes loses watches : Action

module _ {S T : Type 0} (n : CacheClient S T) where
  pub act : Action → NodeCache T → S → NodeCache T × S
  unfolding watch_fired
  act (starts build_initial) c s =
      let (err, c1, s1) = start_and_initialize n build_initial c s in (c1, s1)
  act closes c s = (close c, s)
  act loses c s = let (err, c1, s1) = state_changed n false c s in (c1, s1)
  act watches c s = (c, watch_fired n c s)

  pub acts : List Action → NodeCache T → S → NodeCache T × S
  unfolding act
  acts [] c s = (c, s)
  acts (a ∷ rest) c s = let (c1, s1) = act a c s in acts rest c1 s1

  module _ {X : Type 0} (seen : S → X) (ensures : (s : S) → seen (n.ensure s).1 ≡ seen s)
      (reads : (compressed : Bool) (s : S) → seen (n.get_data compressed s).1 ≡ seen s) where
    -- The cache is not connected, and what is seen is as it was.
    abbrev Idle : S → NodeCache T → S → Type 0
    Idle s0 c s = (c.is_connected ≡ false) × (seen s ≡ seen s0)

    reset-Idle : (c : NodeCache T) (s : S) → c.is_connected ≡ false → reset n c s ≡ (none, s)
    unfolding reset
    reset-Idle c s h = elim (Bool-cases (same_state c.state started)) [
      | inl is_on ↦ ground arith
      | inr is_off ↦ ground arith
    ]

    rebuild-Idle :
        (c : NodeCache T) (s0 s : S)
        → Idle s0 c s
        → Idle s0 (internal_rebuild n c s).1 (internal_rebuild n c s).2
    unfolding internal_rebuild
    rebuild-Idle c s0 s h =
        let read = reads c.data_is_compressed s in
        elim (Option-cases (n.get_data c.data_is_compressed s).0.2) [
          | inl fine ↦ ground arith
          | inr (e, failed) ↦ elim (Bool-cases (is_no_node e)) [
            | inl missing ↦ ground arith
            | inr is_other ↦ ground arith
          ]
        ]

    initialize-Idle :
        (b : Bool) (c : NodeCache T) (s0 s : S)
        → Idle s0 c s
        → Idle s0 (initialize n b c s).1 (initialize n b c s).2
    unfolding initialize
    initialize-Idle false c s0 s h = ground (arith, reset-Idle c s)
    initialize-Idle true c s0 s h =
        let (err, c1, s1) = internal_rebuild n c s in
        let still = rebuild-Idle c s0 s h in
        elim (Option-cases (internal_rebuild n c s).0) [
          | inl fine ↦ ground (arith, reset-Idle c1 s1)
          | inr (e, failed) ↦ ground arith
        ]

    start-Idle :
        (b : Bool) (c : NodeCache T) (s0 s : S)
        → Idle s0 c s
        → Idle s0 (start_and_initialize n b c s).1 (start_and_initialize n b c s).2
    unfolding start_and_initialize
    start-Idle b c s0 s h =
        let (state, changed) = change c.state latent started in
        let (err, s1) = n.ensure s in
        let c1 = record c { state = state; listening = true } in
        let ensured = ensures s in
        elim (Bool-cases (change c.state latent started).1) [
          | inr is_not ↦ ground arith
          | inl is_so ↦ elim (Option-cases (n.ensure s).0) [
            | inr (e, failed) ↦ ground arith
            | inl fine ↦ ground (arith, initialize-Idle b c1 s0 s1)
          ]
        ]

    close-Idle : (c : NodeCache T) → (close c).is_connected ≡ c.is_connected
    unfolding close
    close-Idle c = elim (Bool-cases (change c.state started stopped).1) [
      | inl is_so ↦ ground arith
      | inr is_not ↦ ground arith
    ]

    act-Idle :
        (a : Action) (c : NodeCache T) (s0 s : S)
        → Idle s0 c s
        → Idle s0 (act a c s).0 (act a c s).1
    unfolding act state_changed watch_fired
    act-Idle (starts b) c s0 s h = start-Idle b c s0 s h
    act-Idle closes c s0 s h = (close-Idle c ∙ h.0, h.1)
    act-Idle loses c s0 s h = (refl, h.1)
    act-Idle watches c s0 s h = ground (arith, reset-Idle c s)

    acts-Idle :
        (l : List Action) (c : NodeCache T) (s0 s : S)
        → Idle s0 c s
        → Idle s0 (acts l c s).0 (acts l c s).1
    unfolding acts
    acts-Idle [] c s0 s h = h
    acts-Idle (a ∷ l) c s0 s h =
        let (c1, s1) = act a c s in acts-Idle l c1 s0 s1 (act-Idle a c s0 s h)

    -- A new cache requests nothing in the background until a connection is reported to it by the
    -- connection state listener, also if the client is connected when it starts: whatever of the
    -- world Ensure and a read in the foreground leave as it is, is left by every sequence of starts,
    -- closes, reports of a lost connection and events of the watcher.
    pub acts-new_node_cache :
        (data_is_compressed : Bool) (l : List Action) (s : S)
        → seen (acts l (new_node_cache data_is_compressed) s).1 ≡ seen s
    unfolding new_node_cache
    acts-new_node_cache data_is_compressed l s =
        (acts-Idle l (new_node_cache data_is_compressed) s s (refl, refl)).1
