-- ===== src/Builders/GetData.antt =====
-- data.go: the builder of a request for the data of a node.
use curator_go.Base.{ℕ, Bool, true, false, Option, none, some, if◌then◌else◌, Bytes}
use curator_go.Errors.{Err}
use curator_go.Zk.{Slice}
use curator_go.Namespace.{unfix_for_namespace}
use curator_go.Framework.{
  Framework, Session, Backgrounding, in_foreground, background, Watching, is_watching, Event,
  EventType, blank, path_or_given, deliver, Call, returned, launched, fixed, watch_events,
}
use curator_go.Framework.Cells.{store_stat, retried_with}

-- `stat` is what the stat pointer points to, `none` for a nil one. The caller's variable is this
-- cell where StoringStatIn was given one.
pub record GetDataBuilder (T : Type 0) : Type 0 where
  pub backgrounding : Backgrounding
  pub decompress : Bool
  pub stat : Option T
  pub watching : Watching

-- curatorFramework.GetData, on a started client.
get_data_builder : {T : Type 0} → GetDataBuilder T
get_data_builder = record {
  backgrounding = in_foreground;
  decompress = false;
  stat = none;
  watching = record { watcher = none; watched = false };
}

module _ {S A T : Type 0} (f : Framework S A T) where
  -- The call of the connection, with or without a watch.
  unfoldable pub read_data : Watching → Bytes → S → (Slice ℕ × Option T × Option Err) × S
  read_data w path s =
      if is_watching w
      then (let ((bytes, stat, events, err), s1) = f.conn.get_w path s in
          ((bytes, stat, err), watch_events f w events s1))
      else f.conn.get path s

  -- One attempt of pathInForeground.
  unfoldable pub get_data_attempt :
      GetDataBuilder T → Bytes → Option T × S → (Slice ℕ × Option Err) × (Option T × S)
  unfolding read_data
  get_data_attempt b path (cell, s) =
      let ((read, stat, err), s1) = read_data b.watching path s in
      let stored : Option T × S = (store_stat cell stat, s1) in
      let (plain, bad) = f.decompress path read in
      if b.decompress
      then elim bad [ some e ↦ ((none, some e), stored) | none ↦ ((plain, err), stored) ]
      else ((read, err), stored)

  unfoldable pub get_data_in_foreground :
      ℕ
      → GetDataBuilder T
      → Bytes
      → Session S
      → Option ((Slice ℕ × Option Err) × Option T × Session S)
  get_data_in_foreground fuel b path s = retried_with f fuel none b.stat (get_data_attempt b path) s

  pub get_data_in_background :
      ℕ → GetDataBuilder T → Bytes → Bytes → Session S → Option (Option (Event A T) × Session S)
  get_data_in_background fuel b path given s = elim (get_data_in_foreground fuel b path s) [
    | none ↦ none
    | some ((read, err), cell, s1) ↦
        let shown = unfix_for_namespace f.namespace.namespace path in
        some (
          deliver b.backgrounding
              (record (blank EventType.get_data err (path_or_given err shown given)
                b.backgrounding.context) { payload = read; stat = cell }),
          s1,
        )
  ]

  -- The results are the data and what the cell of the stat holds.
  pub get_data_for_path :
      ℕ → GetDataBuilder T → Bytes → Session S → Option (Call S A T (Slice ℕ × Option T))
  get_data_for_path fuel b given s = elim (fixed f fuel given s) [
    | none ↦ none
    | some (adjusted, s1) ↦
        let now = get_data_in_foreground fuel b adjusted s1 in
        if b.backgrounding.in_background
        then some (launched (none, b.stat) none (get_data_in_background fuel b adjusted given) s1)
        else elim now [
          | none ↦ none
          | some ((read, none), cell, s2) ↦ some (returned (read, cell) none s2)
          | some ((read, some e), cell, s2) ↦ some (returned (none, cell) (some e) s2)
        ]
  ]

-- The options.
get_data_decompressed : {T : Type 0} → GetDataBuilder T → GetDataBuilder T
get_data_decompressed b = record b { decompress = true }

get_data_storing_stat_in : {T : Type 0} → Option T → GetDataBuilder T → GetDataBuilder T
get_data_storing_stat_in stat b = record b { stat = stat }

get_data_watched : {T : Type 0} → GetDataBuilder T → GetDataBuilder T
get_data_watched b = record b { watching = record b.watching { watched = true } }

get_data_using_watcher : {T : Type 0} → Option ℕ → GetDataBuilder T → GetDataBuilder T
get_data_using_watcher watcher b = record b { watching = record b.watching { watcher = watcher } }

pub get_data_background : {T : Type 0} → Option ℕ → Option ℕ → GetDataBuilder T → GetDataBuilder T
get_data_background context callback b = record b { backgrounding = background context callback }
