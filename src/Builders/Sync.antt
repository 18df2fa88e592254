-- ===== src/Builders/Sync.antt =====
-- sync.go: the builder of a request to sync a path.
pub mod Modes
use curator_go.Base.{ℕ, Bool, true, false, Option, none, some, [], if◌then◌else◌, Bytes}
use curator_go.Errors.{Err}
use curator_go.Namespace.{unfix_for_namespace}
use curator_go.Framework.{
  Framework, Session, Backgrounding, in_foreground, background, Event, EventType, blank,
  path_or_given, deliver, Call, returned, launched, fixed, retried,
}

pub record SyncBuilder : Type 0 where
  pub backgrounding : Backgrounding

-- curatorFramework.Sync, on a started client.
sync_builder : SyncBuilder
sync_builder = record { backgrounding = in_foreground }

module _ {S A T : Type 0} (f : Framework S A T) where
  unfoldable pub sync_in_foreground :
      ℕ → Bytes → Session S → Option ((Bytes × Option Err) × Session S)
  sync_in_foreground fuel path s = elim (retried f fuel [] (f.conn.sync path) s) [
    | none ↦ none
    | some ((synced, err), s1) ↦ some ((unfix_for_namespace f.namespace.namespace synced, err), s1)
  ]

  unfoldable pub sync_in_background :
      ℕ → SyncBuilder → Bytes → Bytes → Session S → Option (Option (Event A T) × Session S)
  sync_in_background fuel b path given s = elim (sync_in_foreground fuel path s) [
    | none ↦ none
    | some ((synced, err), s1) ↦
        let shown = unfix_for_namespace f.namespace.namespace synced in
        some (
          deliver b.backgrounding
              (blank EventType.sync err (path_or_given err shown given) b.backgrounding.context),
          s1,
        )
  ]

  unfoldable pub sync_for_path : ℕ → SyncBuilder → Bytes → Session S → Option (Call S A T Bytes)
  sync_for_path fuel b given s = elim (fixed f fuel given s) [
    | none ↦ none
    | some (adjusted, s1) ↦
        let now = sync_in_foreground fuel adjusted s1 in
        if b.backgrounding.in_background
        then some (launched given none (sync_in_background fuel b adjusted given) s1)
        else elim now [ none ↦ none | some ((synced, err), s2) ↦ some (returned synced err s2) ]
  ]

unfoldable pub sync_background : Option ℕ → Option ℕ → SyncBuilder → SyncBuilder
sync_background context callback b = record b { backgrounding = background context callback }
