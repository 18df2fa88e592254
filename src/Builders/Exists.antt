-- ===== src/Builders/Exists.antt =====
-- exists.go: the builder of a request whether a node exists.
pub mod Answers
use curator_go.Base.{ℕ, Bool, true, false, Option, none, some, if◌then◌else◌, Bytes, not}
use curator_go.Errors.{Err}
use curator_go.Path.{get_node_from_path}
use curator_go.Namespace.{unfix_for_namespace}
use curator_go.Framework.{
  Framework, Session, Backgrounding, in_foreground, background, Watching, is_watching, Event,
  EventType, blank, Call, returned, launched, fixed, retried, watch_events,
}

pub record ExistsBuilder : Type 0 where
  pub backgrounding : Backgrounding
  pub watching : Watching

-- curatorFramework.CheckExists, on a started client.
exists_builder : ExistsBuilder
exists_builder = record {
  backgrounding = in_foreground;
  watching = record { watcher = none; watched = false };
}

module _ {S A T : Type 0} (f : Framework S A T) where
  -- The call of the connection, with or without a watch.
  unfoldable pub look_up : Watching → Bytes → S → (Bool × Option T × Option Err) × S
  look_up w path s =
      if is_watching w
      then (let ((found, stat, events, err), s1) = f.conn.exists_w path s in
          ((found, stat, err), watch_events f w events s1))
      else f.conn.exists path s

  -- One attempt of pathInForeground.
  unfoldable pub exists_attempt : ExistsBuilder → Bytes → S → (Option T × Option Err) × S
  unfolding look_up
  exists_attempt b path s =
      let ((found, stat, err), s1) = look_up b.watching path s in
      elim err [
        | some e ↦ ((none, some e), s1)
        | none ↦ if not found then ((none, none), s1) else ((stat, none), s1)
      ]

  unfoldable pub exists_in_foreground :
      ℕ → ExistsBuilder → Bytes → Session S → Option ((Option T × Option Err) × Session S)
  exists_in_foreground fuel b path s = retried f fuel none (exists_attempt b path) s

  -- The event has the path in both cases, and the name of the path as the server knows it.
  unfoldable pub exists_in_background :
      ℕ → ExistsBuilder → Bytes → Session S → Option (Option (Event A T) × Session S)
  exists_in_background fuel b path s = elim (exists_in_foreground fuel b path s) [
    | none ↦ none
    | some ((stat, err), s1) ↦
        let shown = unfix_for_namespace f.namespace.namespace path in
        let event : Event A T = record (blank EventType.exists err shown b.backgrounding.context) {
          stat = stat;
          name = get_node_from_path path;
        } in
        some (elim (b.backgrounding.callback) [ none ↦ none | some callback ↦ some event ], s1)
  ]

  pub exists_for_path : ℕ → ExistsBuilder → Bytes → Session S → Option (Call S A T (Option T))
  exists_for_path fuel b given s = elim (fixed f fuel given s) [
    | none ↦ none
    | some (adjusted, s1) ↦
        let now = exists_in_foreground fuel b adjusted s1 in
        if b.backgrounding.in_background
        then some (launched none none (exists_in_background fuel b adjusted) s1)
        else elim now [ none ↦ none | some ((stat, err), s2) ↦ some (returned stat err s2) ]
  ]

-- The options.
exists_watched : ExistsBuilder → ExistsBuilder
exists_watched b = record b { watching = record b.watching { watched = true } }

exists_using_watcher : Option ℕ → ExistsBuilder → ExistsBuilder
exists_using_watcher watcher b = record b { watching = record b.watching { watcher = watcher } }

pub exists_background : Option ℕ → Option ℕ → ExistsBuilder → ExistsBuilder
exists_background context callback b = record b { backgrounding = background context callback }
