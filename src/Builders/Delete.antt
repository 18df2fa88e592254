-- ===== src/Builders/Delete.antt =====
-- delete.go: the builder of a request to delete a node.
pub mod Subtree
pub mod Modes
use curator_go.Base.{ℕ, Bool, true, false, Option, none, some, if◌then◌else◌, Bytes, ℤ}
use curator_go.Errors.{Err, is_not_empty}
use curator_go.Zk.{any_version}
use curator_go.Path.Dirs.{delete_children}
use curator_go.Namespace.{unfix_for_namespace}
use curator_go.Framework.{
  Framework, Session, Backgrounding, in_foreground, background, Event, EventType, blank,
  path_or_given, deliver, Call, returned, launched, fixed, retried,
}

pub record DeleteBuilder : Type 0 where
  pub backgrounding : Backgrounding
  pub deleting_children_if_needed : Bool
  pub version : ℤ

-- curatorFramework.Delete, on a started client.
delete_builder : DeleteBuilder
delete_builder = record {
  backgrounding = in_foreground;
  deleting_children_if_needed = false;
  version = any_version;
}

module _ {S A T : Type 0} (f : Framework S A T) where
  -- One attempt of pathInForeground. `none` in the result stands for a recursion of DeleteChildren
  -- whose fuel ran out.
  unfoldable pub delete_attempt : ℕ → DeleteBuilder → Bytes → S → (Bool × Option Err) × S
  delete_attempt depth b path s =
      let (err, s1) = f.conn.delete path b.version s in
      let blocked : Bool = elim err [ none ↦ false | some e ↦ is_not_empty e ] in
      if blocked
      then (if b.deleting_children_if_needed
          then elim (delete_children f.conn depth path true s1) [
            | none ↦ ((false, err), s1)
            | some (err', s2) ↦ ((true, err'), s2)
          ]
          else ((true, err), s1))
      else ((true, err), s1)

  -- pathInForeground; `none` also where a recursion of DeleteChildren ran out of fuel.
  unfoldable pub delete_in_foreground :
      ℕ → ℕ → DeleteBuilder → Bytes → Session S → Option (Option Err × Session S)
  unfolding delete_attempt
  delete_in_foreground fuel depth b path s =
      elim (retried f fuel true (delete_attempt depth b path) s) [
        | none ↦ none
        | some ((ended, err), s1) ↦ if ended then some (err, s1) else none
      ]

  unfoldable pub delete_in_background :
      ℕ → ℕ → DeleteBuilder → Bytes → Bytes → Session S → Option (Option (Event A T) × Session S)
  delete_in_background fuel depth b path given s = elim (delete_in_foreground fuel depth b path s) [
    | none ↦ none
    | some (err, s1) ↦
        let shown = unfix_for_namespace f.namespace.namespace path in
        some (
          deliver b.backgrounding
              (blank EventType.delete err (path_or_given err shown given) b.backgrounding.context),
          s1,
        )
  ]

  unfoldable pub delete_for_path :
      ℕ → ℕ → DeleteBuilder → Bytes → Session S → Option (Call S A T (Unit {0}))
  delete_for_path fuel depth b given s = elim (fixed f fuel given s) [
    | none ↦ none
    | some (adjusted, s1) ↦
        let now = delete_in_foreground fuel depth b adjusted s1 in
        if b.backgrounding.in_background
        then some (launched tt none (delete_in_background fuel depth b adjusted given) s1)
        else elim now [ none ↦ none | some (err, s2) ↦ some (returned tt err s2) ]
  ]

-- The options.
delete_deleting_children : DeleteBuilder → DeleteBuilder
delete_deleting_children b = record b { deleting_children_if_needed = true }

delete_with_version : ℤ → DeleteBuilder → DeleteBuilder
delete_with_version version b = record b { version = version }

unfoldable pub delete_background : Option ℕ → Option ℕ → DeleteBuilder → DeleteBuilder
delete_background context callback b = record b { backgrounding = background context callback }
