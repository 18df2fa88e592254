-- ===== src/Builders/Children.antt =====
-- children.go: the builder of a request for the children of a node.
use curator_go.Base.{ℕ, true, false, Option, none, some, if◌then◌else◌, Bytes}
use curator_go.Errors.{Err}
use curator_go.Zk.{Slice}
use curator_go.Namespace.{unfix_for_namespace}
use curator_go.Framework.{
  Framework, Session, Backgrounding, in_foreground, background, Watching, is_watching, Event,
  EventType, blank, path_or_given, deliver, Call, returned, launched, fixed, watch_events,
}
use curator_go.Framework.Cells.{store_stat, retried_with}

-- `stat` is what the stat pointer points to, `none` for a nil one.
pub record ChildrenBuilder (T : Type 0) : Type 0 where
  pub backgrounding : Backgrounding
  pub stat : Option T
  pub watching : Watching

-- curatorFramework.GetChildren, on a started client.
children_builder : {T : Type 0} → ChildrenBuilder T
children_builder = record {
  backgrounding = in_foreground;
  stat = none;
  watching = record { watcher = none; watched = false };
}

module _ {S A T : Type 0} (f : Framework S A T) where
  -- The call of the connection, with or without a watch.
  list_children : Watching → Bytes → S → (Slice Bytes × Option T × Option Err) × S
  list_children w path s =
      if is_watching w
      then (let ((names, stat, events, err), s1) = f.conn.children_w path s in
          ((names, stat, err), watch_events f w events s1))
      else f.conn.children path s

  -- One attempt of pathInForeground.
  pub children_attempt :
      ChildrenBuilder T → Bytes → Option T × S → (Slice Bytes × Option Err) × (Option T × S)
  unfolding list_children
  children_attempt b path (cell, s) =
      let ((names, stat, err), s1) = list_children b.watching path s in
      ((names, err), (store_stat cell stat, s1))

  pub children_in_foreground :
      ℕ
      → ChildrenBuilder T
      → Bytes
      → Session S
      → Option ((Slice Bytes × Option Err) × Option T × Session S)
  children_in_foreground fuel b path s = retried_with f fuel none b.stat (children_attempt b path) s

  pub children_in_background :
      ℕ → ChildrenBuilder T → Bytes → Bytes → Session S → Option (Option (Event A T) × Session S)
  children_in_background fuel b path given s = elim (children_in_foreground fuel b path s) [
    | none ↦ none
    | some ((names, err), cell, s1) ↦
        let shown = unfix_for_namespace f.namespace.namespace path in
        some (
          deliver b.backgrounding
              (record (blank EventType.children err (path_or_given err shown given)
                b.backgrounding.context) { children = names; stat = cell }),
          s1,
        )
  ]

  -- The results are the names and what the cell of the stat holds.
  pub children_for_path :
      ℕ → ChildrenBuilder T → Bytes → Session S → Option (Call S A T (Slice Bytes × Option T))
  children_for_path fuel b given s = elim (fixed f fuel given s) [
    | none ↦ none
    | some (adjusted, s1) ↦
        let now = children_in_foreground fuel b adjusted s1 in
        if b.backgrounding.in_background
        then some (launched (none, b.stat) none (children_in_background fuel b adjusted given) s1)
        else elim now [
          | none ↦ none
          | some ((names, none), cell, s2) ↦ some (returned (names, cell) none s2)
          | some ((names, some e), cell, s2) ↦ some (returned (none, cell) (some e) s2)
        ]
  ]

-- The options.
children_storing_stat_in : {T : Type 0} → Option T → ChildrenBuilder T → ChildrenBuilder T
children_storing_stat_in stat b = record b { stat = stat }

children_watched : {T : Type 0} → ChildrenBuilder T → ChildrenBuilder T
children_watched b = record b { watching = record b.watching { watched = true } }

children_using_watcher : {T : Type 0} → Option ℕ → ChildrenBuilder T → ChildrenBuilder T
children_using_watcher watcher b = record b { watching = record b.watching { watcher = watcher } }

pub children_background : {T : Type 0} → Option ℕ → Option ℕ → ChildrenBuilder T → ChildrenBuilder T
children_background context callback b = record b { backgrounding = background context callback }
