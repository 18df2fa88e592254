-- ===== src/NodeCache.antt =====
-- recipes/cache.go: NodeCache, a copy of the data of one node that the client keeps. It asks whether
-- the node exists, with a watch, then for its data, in the background, and is called back with an
-- event for each answer.
pub mod Idle
pub mod Missing
pub mod Told
mod Tests
use curator_go.Base.{
  ℕ, Bool, true, false, not, ◌&&◌, Option, none, some, List, [], ◌∷◌, if◌then◌else◌, Bytes,
  bytes_eq,
}
use curator_go.Errors.{Err, started_twice, is_no_node}
use curator_go.Zk.{Slice}
use curator_go.State.{State, latent, started, stopped, same_state, change}
use curator_go.Listeners.{Container, add, remove, clear, for_each}
use curator_go.Framework.{Event, EventType}

-- The path of a ChildData is that of its cache.
pub record ChildData (T : Type 0) : Type 0 where
  pub stat : Option T
  pub payload : Slice ℕ

-- What the cache uses of the framework, for the path of its node: Ensure of the node above, the
-- data and their stat in the foreground, a CheckExists with the cache's watcher and a GetData with
-- it, both in the background with the cache's callback; whether the error of either request is
-- known at once; and NodeChanged of a listener. The Boolean asks for data to be decompressed.
pub record CacheClient (S T : Type 0) : Type 0 where
  pub ensure : S → Option Err × S
  pub get_data : Bool → S → (Slice ℕ × Option T × Option Err) × S
  pub check_exists : S → Option Err × S
  pub request_data : Bool → S → S
  pub node_changed : ℕ → S → S
  pub same_stat : Option T → Option T → Bool

-- The listeners are a NodeCacheListenerContainer, which has a pointer to a container that nothing
-- sets, so that it stays nil. `listening` says whether the connection state listener is registered with the client.
pub record NodeCache (T : Type 0) : Type 0 where
  pub data_is_compressed : Bool
  pub state : State
  pub is_connected : Bool
  pub child_data : Option (ChildData T)
  pub listening : Bool
  pub listeners : Container

pub new_node_cache : {T : Type 0} → Bool → NodeCache T
new_node_cache data_is_compressed = record {
  data_is_compressed = data_is_compressed;
  state = latent;
  is_connected = false;
  child_data = none;
  listening = false;
  listeners = none;
}

-- Two slices of bytes, for reflect.DeepEqual: a nil slice is not an empty one.
abbrev pub same_slice : Slice ℕ → Slice ℕ → Bool
same_slice none none = true
same_slice (some a) (some b) = bytes_eq a b
same_slice _ _ = false

pub add_listener : {T : Type 0} → ℕ → NodeCache T → NodeCache T
unfolding add
add_listener listener c = record c { listeners = add listener c.listeners }

pub remove_listener : {T : Type 0} → ℕ → NodeCache T → NodeCache T
unfolding remove
remove_listener listener c = record c { listeners = remove listener c.listeners }

pub close : {T : Type 0} → NodeCache T → NodeCache T
unfolding change clear
close c =
    let (state, changed) = change c.state started stopped in
    if changed
    then record c { state = state; listeners = clear c.listeners; listening = false }
    else record c { listening = false }

module _ {S T : Type 0} (n : CacheClient S T) where
  abbrev pub deep_equal : Option (ChildData T) → Option (ChildData T) → Bool
  deep_equal none none = true
  deep_equal (some a) (some b) = n.same_stat a.stat b.stat && same_slice a.payload b.payload
  deep_equal _ _ = false

  pub internal_rebuild : NodeCache T → S → Option Err × NodeCache T × S
  internal_rebuild c s =
      let ((payload, stat, err), s1) = n.get_data c.data_is_compressed s in
      elim err [
        | none ↦
            (none, record c { child_data = some (record { stat = stat; payload = payload }) }, s1)
        | some e ↦
            if is_no_node e then (none, record c { child_data = none }, s1) else (some e, c, s1)
      ]

  pub reset : NodeCache T → S → Option Err × S
  reset c s = if same_state c.state started && c.is_connected then n.check_exists s else (none, s)

  -- The end of StartAndInitalize.
  pub initialize : Bool → NodeCache T → S → Option Err × NodeCache T × S
  unfolding internal_rebuild reset
  initialize true c s =
      let (err, c1, s1) = internal_rebuild c s in
      elim err [ some e ↦ (some e, c1, s1) | none ↦ let (err1, s2) = reset c1 s1 in (err1, c1, s2) ]
  initialize false c s = let (err, s1) = reset c s in (err, c, s1)

  pub start_and_initialize : Bool → NodeCache T → S → Option Err × NodeCache T × S
  unfolding initialize change
  start_and_initialize build_initial c s =
      let (state, changed) = change c.state latent started in
      let (err, s1) = n.ensure s in
      let c1 = record c { state = state } in
      if not changed then (some started_twice, c, s) else elim err [
        | some e ↦ (some e, c1, s1)
        | none ↦ initialize build_initial (record c1 { listening = true }) s1
      ]

  pub start : NodeCache T → S → Option Err × NodeCache T × S
  unfolding start_and_initialize
  start c s = start_and_initialize false c s

  -- The connection state listener. An error of the reset is a panic.
  pub state_changed : Bool → NodeCache T → S → Option Err × NodeCache T × S
  unfolding reset
  state_changed true c s =
      let c1 = record c { is_connected = true } in
      let (err, s1) = reset c1 s in if c.is_connected then (none, c, s) else (err, c1, s1)
  state_changed false c s = (none, record c { is_connected = false }, s)

  -- The watcher; the error of the reset is dropped.
  pub watch_fired : NodeCache T → S → S
  unfolding reset
  watch_fired c s = (reset c s).1

  pub set_new_data : Option (ChildData T) → NodeCache T → S → NodeCache T × S
  unfolding for_each
  set_new_data new_data c s =
      let c1 = record c { child_data = new_data } in
      if deep_equal c.child_data new_data
      then (c1, s)
      else (c1, for_each n.node_changed c.listeners s)

  -- processBackgroundResult for an event with no error, and for one with an error.
  pub answered : {A : Type 0} → Event A T → EventType → NodeCache T → S → NodeCache T × S
  unfolding set_new_data
  answered event EventType.get_data c s =
      set_new_data (some (record { stat = event.stat; payload = event.payload })) c s
  answered event EventType.exists c s = (c, n.request_data c.data_is_compressed s)
  answered event _ c s = (c, s)

  pub failed : Err → EventType → NodeCache T → S → NodeCache T × S
  unfolding set_new_data
  failed e EventType.exists c s = if is_no_node e then set_new_data none c s else (c, s)
  failed e _ c s = (c, s)

  pub process_background_result : {A : Type 0} → Event A T → NodeCache T → S → NodeCache T × S
  unfolding answered failed
  process_background_result event c s = elim (event.err) [
    | none ↦ answered event event.event_type c s
    | some e ↦ failed e event.event_type c s
  ]
