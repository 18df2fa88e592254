-- ===== src/Builders/SetData.antt =====
-- data.go: the builder of a request to set the data of a node.
use curator_go.Base.{ℕ, Bool, true, false, Option, none, some, if◌then◌else◌, Bytes, ℤ}
use curator_go.Errors.{Err}
use curator_go.Zk.{Slice, any_version}
use curator_go.Namespace.{unfix_for_namespace}
use curator_go.Framework.{
  Framework, Session, Backgrounding, in_foreground, background, Event, EventType, blank,
  path_or_given, deliver, Call, returned, launched, fixed, retried,
}

pub record SetDataBuilder : Type 0 where
  pub backgrounding : Backgrounding
  pub version : ℤ
  pub compress : Bool

-- curatorFramework.SetData, on a started client.
set_data_builder : SetDataBuilder
set_data_builder = record { backgrounding = in_foreground; version = any_version; compress = false }

module _ {S A T : Type 0} (f : Framework S A T) where
  pub set_data_in_foreground :
      ℕ
      → SetDataBuilder
      → Bytes
      → Slice ℕ
      → Session S
      → Option ((Option T × Option Err) × Session S)
  set_data_in_foreground fuel b path payload s =
      retried f fuel none (f.conn.set path payload b.version) s

  pub set_data_in_background :
      ℕ
      → SetDataBuilder
      → Bytes
      → Slice ℕ
      → Bytes
      → Session S
      → Option (Option (Event A T) × Session S)
  set_data_in_background fuel b path payload given s =
      elim (set_data_in_foreground fuel b path payload s) [
        | none ↦ none
        | some ((stat, err), s1) ↦
            let shown = unfix_for_namespace f.namespace.namespace path in
            some (
              deliver b.backgrounding
                  (record (blank EventType.set_data err (path_or_given err shown given)
                    b.backgrounding.context) { payload = payload; stat = stat }),
              s1,
            )
      ]

  pub set_data_for_path_with_data :
      ℕ → SetDataBuilder → Bytes → Slice ℕ → Session S → Option (Call S A T (Option T))
  set_data_for_path_with_data fuel b given payload s =
      let packed : Slice ℕ × Option Err =
        if b.compress then f.compress given payload else (payload, none) in
      elim (packed.1) [
        | some e ↦ some (returned none (some e) s)
        | none ↦ elim (fixed f fuel given s) [
          | none ↦ none
          | some (adjusted, s1) ↦
              let now = set_data_in_foreground fuel b adjusted packed.0 s1 in
              if b.backgrounding.in_background
              then some
                  (launched none none (set_data_in_background fuel b adjusted packed.0 given) s1)
              else elim now [ none ↦ none | some ((stat, err), s2) ↦ some (returned stat err s2) ]
        ]
      ]

  pub set_data_for_path : ℕ → SetDataBuilder → Bytes → Session S → Option (Call S A T (Option T))
  set_data_for_path fuel b path s = set_data_for_path_with_data fuel b path f.default_data s

-- The options.
set_data_with_version : ℤ → SetDataBuilder → SetDataBuilder
set_data_with_version version b = record b { version = version }

set_data_compressed : SetDataBuilder → SetDataBuilder
set_data_compressed b = record b { compress = true }

pub set_data_background : Option ℕ → Option ℕ → SetDataBuilder → SetDataBuilder
set_data_background context callback b = record b { backgrounding = background context callback }
