-- ===== src/Builders/GetAcl.antt =====
-- acl.go: the builder of a request for the ACL of a node.
use curator_go.Base.{ℕ, Option, none, some, if◌then◌else◌, Bytes}
use curator_go.Errors.{Err}
use curator_go.Zk.{Slice}
use curator_go.Namespace.{unfix_for_namespace}
use curator_go.Framework.{
  Framework, Session, Backgrounding, in_foreground, background, Event, EventType, blank,
  path_or_given, deliver, Call, returned, launched, fixed,
}
use curator_go.Framework.Cells.{store_stat, retried_with}

-- `stat` is what the stat pointer points to, `none` for a nil one.
pub record GetAclBuilder (T : Type 0) : Type 0 where
  pub backgrounding : Backgrounding
  pub stat : Option T

-- curatorFramework.GetACL, on a started client.
get_acl_builder : {T : Type 0} → GetAclBuilder T
get_acl_builder = record { backgrounding = in_foreground; stat = none }

module _ {S A T : Type 0} (f : Framework S A T) where
  -- One attempt of pathInForeground.
  pub get_acl_attempt : Bytes → Option T × S → (Slice A × Option Err) × (Option T × S)
  get_acl_attempt path (cell, s) =
      let ((acls, stat, err), s1) = f.conn.get_acl path s in
      ((acls, err), (store_stat cell stat, s1))

  pub get_acl_in_foreground :
      ℕ
      → GetAclBuilder T
      → Bytes
      → Session S
      → Option ((Slice A × Option Err) × Option T × Session S)
  get_acl_in_foreground fuel b path s = retried_with f fuel none b.stat (get_acl_attempt path) s

  pub get_acl_in_background :
      ℕ → GetAclBuilder T → Bytes → Bytes → Session S → Option (Option (Event A T) × Session S)
  get_acl_in_background fuel b path given s = elim (get_acl_in_foreground fuel b path s) [
    | none ↦ none
    | some ((acls, err), cell, s1) ↦
        let shown = unfix_for_namespace f.namespace.namespace path in
        some (
          deliver b.backgrounding
              (record (blank EventType.get_acl err (path_or_given err shown given)
                b.backgrounding.context) { acls = acls; stat = cell }),
          s1,
        )
  ]

  -- The results are the ACL and what the cell of the stat holds.
  pub get_acl_for_path :
      ℕ → GetAclBuilder T → Bytes → Session S → Option (Call S A T (Slice A × Option T))
  get_acl_for_path fuel b given s = elim (fixed f fuel given s) [
    | none ↦ none
    | some (adjusted, s1) ↦
        let now = get_acl_in_foreground fuel b adjusted s1 in
        if b.backgrounding.in_background
        then some (launched (none, b.stat) none (get_acl_in_background fuel b adjusted given) s1)
        else elim now [
          | none ↦ none
          | some ((acls, err), cell, s2) ↦ some (returned (acls, cell) err s2)
        ]
  ]

-- The options.
get_acl_storing_stat_in : {T : Type 0} → Option T → GetAclBuilder T → GetAclBuilder T
get_acl_storing_stat_in stat b = record b { stat = stat }

pub get_acl_background : {T : Type 0} → Option ℕ → Option ℕ → GetAclBuilder T → GetAclBuilder T
get_acl_background context callback b = record b { backgrounding = background context callback }
