-- ===== src/Builders/Create.antt =====
-- create.go: the builder of a request to create a node.
pub mod Paths
pub mod Modes
use curator_go.Base.{ℕ, Bool, true, false, Option, none, some, [], if◌then◌else◌, Bytes}
use curator_go.Errors.{Err, is_no_node}
use curator_go.Zk.{Slice}
use curator_go.Path.Dirs.{make_dirs}
use curator_go.Namespace.{unfix_for_namespace}
use curator_go.Framework.{
  Framework, Session, Backgrounding, in_foreground, background, Acling, get_acl_list, Event,
  EventType, blank, path_or_given, deliver, Call, returned, launched, fixed, retried,
}

pub record CreateBuilder (A : Type 0) : Type 0 where
  pub create_mode : ℕ
  pub backgrounding : Backgrounding
  pub create_parents_if_needed : Bool
  pub compress : Bool
  pub acling : Acling A

module _ {S A T : Type 0} (f : Framework S A T) where
  -- curatorFramework.Create, on a started client.
  create_builder : CreateBuilder A
  create_builder = record {
    create_mode = 0;
    backgrounding = in_foreground;
    create_parents_if_needed = false;
    compress = false;
    acling = record { acl_list = none; acl_provider = f.acl_provider };
  }

  -- One attempt of pathInForeground. MakeDirs has enough fuel.
  unfoldable pub create_attempt : CreateBuilder A → Bytes → Slice ℕ → S → (Bytes × Option Err) × S
  create_attempt b path payload s =
      let acls = get_acl_list b.acling path in
      let (made, s1) = f.conn.create path payload b.create_mode acls s in
      let missing : Bool = elim (made.1) [ none ↦ false | some e ↦ is_no_node e ] in
      if missing
      then (if b.create_parents_if_needed
          then elim (make_dirs f.conn path false (some b.acling.acl_provider) s1) [
            | none ↦ (([], none), s1)
            | some (some e, s2) ↦ (([], some e), s2)
            | some (none, s2) ↦ f.conn.create path payload b.create_mode acls s2
          ]
          else (made, s1))
      else (made, s1)

  unfoldable pub create_in_foreground :
      ℕ → CreateBuilder A → Bytes → Slice ℕ → Session S → Option ((Bytes × Option Err) × Session S)
  unfolding create_attempt
  create_in_foreground fuel b path payload s = retried f fuel [] (create_attempt b path payload) s

  unfoldable pub create_in_background :
      ℕ
      → CreateBuilder A
      → Bytes
      → Slice ℕ
      → Bytes
      → Session S
      → Option (Option (Event A T) × Session S)
  create_in_background fuel b path payload given s =
      elim (create_in_foreground fuel b path payload s) [
        | none ↦ none
        | some ((created, err), s1) ↦ some (
          deliver b.backgrounding
              (record (blank EventType.create err (path_or_given err created given)
                b.backgrounding.context) { payload = payload; acls = get_acl_list b.acling path }),
          s1,
        )
      ]

  -- ForPathWithData, from the test of the mode on.
  unfoldable pub create_sent :
      ℕ → CreateBuilder A → Bytes → Slice ℕ → Bytes → Session S → Option (Call S A T Bytes)
  create_sent fuel b given payload adjusted s =
      let namespace = f.namespace.namespace in
      let now = create_in_foreground fuel b adjusted payload s in
      if b.backgrounding.in_background
      then some (
          launched (unfix_for_namespace namespace adjusted) none
            (create_in_background fuel b adjusted payload given) s)
      else elim now [
        | none ↦ none
        | some ((path, err), s1) ↦ some (returned (unfix_for_namespace namespace path) err s1)
      ]

  -- ForPathWithData behind the compression.
  unfoldable pub create_packed :
      ℕ → CreateBuilder A → Bytes → Slice ℕ × Option Err → Session S → Option (Call S A T Bytes)
  unfolding create_sent
  create_packed fuel b given (payload, some e) s = some (returned [] (some e) s)
  create_packed fuel b given (payload, none) s = elim (fixed f fuel given s) [
    | none ↦ none
    | some (adjusted, s1) ↦ create_sent fuel b given payload adjusted s1
  ]

  unfoldable pub create_for_path_with_data :
      ℕ → CreateBuilder A → Bytes → Slice ℕ → Session S → Option (Call S A T Bytes)
  unfolding create_packed
  create_for_path_with_data fuel b given payload s =
      create_packed fuel b given (if b.compress then f.compress given payload else (payload, none))
        s

  pub create_for_path : ℕ → CreateBuilder A → Bytes → Session S → Option (Call S A T Bytes)
  create_for_path fuel b path s = create_for_path_with_data fuel b path f.default_data s

-- The options.
create_parents : {A : Type 0} → CreateBuilder A → CreateBuilder A
create_parents b = record b { create_parents_if_needed = true }

create_with_mode : {A : Type 0} → ℕ → CreateBuilder A → CreateBuilder A
create_with_mode mode b = record b { create_mode = mode }

create_with_acl : {A : Type 0} → Slice A → CreateBuilder A → CreateBuilder A
create_with_acl acls b = record b { acling = record b.acling { acl_list = acls } }

create_compressed : {A : Type 0} → CreateBuilder A → CreateBuilder A
create_compressed b = record b { compress = true }

unfoldable pub create_background :
    {A : Type 0} → Option ℕ → Option ℕ → CreateBuilder A → CreateBuilder A
create_background context callback b = record b { backgrounding = background context callback }
