-- ===== src/Builders/SetAcl.antt =====
-- acl.go: the builder of a request to set the ACL of a node.
use curator_go.Base.{ℕ, Option, none, some, if◌then◌else◌, Bytes, ℤ}
use curator_go.Errors.{Err}
use curator_go.Zk.{Slice, any_version}
use curator_go.Namespace.{unfix_for_namespace}
use curator_go.Framework.{
  Framework, Session, Backgrounding, in_foreground, background, Acling, get_acl_list, Event,
  EventType, blank, path_or_given, deliver, Call, returned, launched, fixed, retried,
}

pub record SetAclBuilder (A : Type 0) : Type 0 where
  pub backgrounding : Backgrounding
  pub acling : Acling A
  pub version : ℤ

module _ {S A T : Type 0} (f : Framework S A T) where
  -- curatorFramework.SetACL, on a started client.
  set_acl_builder : SetAclBuilder A
  set_acl_builder = record {
    backgrounding = in_foreground;
    acling = record { acl_list = none; acl_provider = f.acl_provider };
    version = any_version;
  }

  pub set_acl_in_foreground :
      ℕ → SetAclBuilder A → Bytes → Session S → Option ((Option T × Option Err) × Session S)
  set_acl_in_foreground fuel b path s =
      retried f fuel none (f.conn.set_acl path (get_acl_list b.acling path) b.version) s

  pub set_acl_in_background :
      ℕ → SetAclBuilder A → Bytes → Bytes → Session S → Option (Option (Event A T) × Session S)
  set_acl_in_background fuel b path given s = elim (set_acl_in_foreground fuel b path s) [
    | none ↦ none
    | some ((stat, err), s1) ↦
        let shown = unfix_for_namespace f.namespace.namespace path in
        some (
          deliver b.backgrounding
              (record (blank EventType.set_acl err (path_or_given err shown given)
                b.backgrounding.context) { acls = get_acl_list b.acling path; stat = stat }),
          s1,
        )
  ]

  pub set_acl_for_path : ℕ → SetAclBuilder A → Bytes → Session S → Option (Call S A T (Option T))
  set_acl_for_path fuel b given s = elim (fixed f fuel given s) [
    | none ↦ none
    | some (adjusted, s1) ↦
        let now = set_acl_in_foreground fuel b adjusted s1 in
        if b.backgrounding.in_background
        then some (launched none none (set_acl_in_background fuel b adjusted given) s1)
        else elim now [ none ↦ none | some ((stat, err), s2) ↦ some (returned stat err s2) ]
  ]

-- The options.
set_acl_with_acl : {A : Type 0} → Slice A → SetAclBuilder A → SetAclBuilder A
set_acl_with_acl acls b = record b { acling = record b.acling { acl_list = acls } }

set_acl_with_version : {A : Type 0} → ℤ → SetAclBuilder A → SetAclBuilder A
set_acl_with_version version b = record b { version = version }

pub set_acl_background : {A : Type 0} → Option ℕ → Option ℕ → SetAclBuilder A → SetAclBuilder A
set_acl_background context callback b = record b { backgrounding = background context callback }
