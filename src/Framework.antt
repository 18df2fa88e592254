-- ===== src/Framework.antt =====
-- What the builders share: the client (framework.go), its namespace (namespace.go), background
-- calls (api.go), access lists (acl.go) and events (event.go).
pub mod Cells
pub mod Connection
pub mod Life
mod Tests
pub mod Loops
pub mod Sample
use curator_go.Base.{
  ℕ, Bool, true, false, Option, none, some, List, [], ltb, if◌then◌else◌, length, Bytes,
}
use curator_go.Errors.{Err}
use curator_go.Zk.{Slice, Conn, AclProvider}
use curator_go.Path.{get_node_from_path}
use curator_go.Retry.{Sleeper, Policy, World, new_retry_loop, call_with_retry}
use curator_go.Ensure.{Shared, ensure}
use curator_go.Namespace.{Namespace, fix_for_namespace, unfix_for_namespace}

-- What the builders use of a curatorFramework. `connect` is the Conn() of its client, whose
-- connection is `conn`; a namespace's EnsurePath is part of the session. `watch w c` starts the
-- goroutine that gives the events of the channel `c` to the watcher `w`.
pub record Framework (S A T : Type 0) : Type 0 where
  pub world : World S
  pub retry_policy : Policy S
  pub connect : S → Option Err × S
  pub conn : Conn S A T
  pub watch : ℕ → ℕ → S → S
  pub namespace : Namespace
  pub compress : Bytes → Slice ℕ → Slice ℕ × Option Err
  pub decompress : Bytes → Slice ℕ → Slice ℕ × Option Err
  pub default_data : Slice ℕ
  pub acl_provider : AclProvider A

-- What changes: the EnsurePath of the namespace, `none` for a nil one, and the server's side.
pub record Session (S : Type 0) : Type 0 where
  pub ensures : Option Shared
  pub server : S

pub record Backgrounding : Type 0 where
  pub in_background : Bool
  pub context : Option ℕ
  pub callback : Option ℕ

pub record Watching : Type 0 where
  pub watcher : Option ℕ
  pub watched : Bool

abbrev pub in_foreground : Backgrounding
in_foreground = record { in_background = false; context = none; callback = none }

-- The four methods InBackground…: the arguments that one does not have are nil.
abbrev pub background : Option ℕ → Option ℕ → Backgrounding
background context callback = record {
  in_background = true;
  context = context;
  callback = callback;
}

-- `b.watching.watched || b.watching.watcher != nil`.
abbrev pub is_watching : Watching → Bool
is_watching w = elim (w.watcher) [ none ↦ w.watched | some n ↦ true ]

pub record Acling (A : Type 0) : Type 0 where
  pub acl_list : Slice A
  pub acl_provider : AclProvider A

-- acling.getAclList.
unfoldable pub get_acl_list : {A : Type 0} → Acling A → Bytes → Slice A
get_acl_list a path = elim (a.acl_list) [
  | some acls ↦ some acls
  | none ↦
      if ltb 0 (length path)
      then elim (a.acl_provider.get_acl_for_path path) [
        | some acls ↦ some acls
        | none ↦ a.acl_provider.get_default_acl
      ]
      else a.acl_provider.get_default_acl
]

pub data EventType : Type 0 where
  create delete exists get_data set_data children sync get_acl set_acl watched closing : EventType

-- The field of the node's data is `payload` here.
pub record Event (A T : Type 0) : Type 0 where
  pub event_type : EventType
  pub err : Option Err
  pub path : Bytes
  pub name : Bytes
  pub children : Slice Bytes
  pub context : Option ℕ
  pub stat : Option T
  pub payload : Slice ℕ
  pub acls : Slice A

abbrev pub blank : {A T : Type 0} → EventType → Option Err → Bytes → Option ℕ → Event A T
blank kind err path context = record {
  event_type = kind;
  err = err;
  path = path;
  name = [];
  children = none;
  context = context;
  stat = none;
  payload = none;
  acls = none;
}

-- `path` where there is no error, the path that the caller gave otherwise.
abbrev pub path_or_given : Option Err → Bytes → Bytes → Bytes
path_or_given none path given = path
path_or_given (some e) path given = given

-- The event that the callback gets, with its name; `none` without a callback.
unfoldable pub deliver : {A T : Type 0} → Backgrounding → Event A T → Option (Event A T)
deliver b e = elim (b.callback) [
  | none ↦ none
  | some callback ↦ some (record e { name = get_node_from_path e.path })
]

-- What a ForPath returns: its results, and, in the background, the goroutine that it starts, which
-- gives the event for the callback and the session that it leaves. `none` stands for fuel that
-- ran out, in both.
pub data Call (S A T R : Type 0) : Type 0 where
  returned : R → Option Err → Session S → Call S A T R
  launched :
      R
      → Option Err
      → (Session S → Option (Option (Event A T) × Session S))
      → Session S
      → Call S A T R

module _ {S A T : Type 0} (f : Framework S A T) where
  -- namespaceImpl.fixForNamespace: the error of Ensure is dropped.
  unfoldable pub fixed : ℕ → Bytes → Session S → Option (Bytes × Session S)
  fixed fuel path s = elim (s.ensures) [
    | none ↦ some (fix_for_namespace f.namespace.namespace path, s)
    | some shared ↦
        elim (ensure f.world f.retry_policy f.conn f.connect none fuel shared none s.server) [
          | none ↦ none
          | some (err, shared', server) ↦ some (
            fix_for_namespace f.namespace.namespace path,
            record { ensures = some shared'; server = server },
          )
        ]
  ]

  -- What each attempt of a builder does first: it asks for the connection. `nothing` is the result
  -- where there is none.
  unfoldable pub with_conn :
      {R : Type 0} → R → (S → (R × Option Err) × S) → S → (R × Option Err) × S
  with_conn nothing attempt t =
      let (err, t1) = f.connect t in
      elim err [ some e ↦ ((nothing, some e), t1) | none ↦ attempt t1 ]

  -- `zkClient.NewRetryLoop().CallWithRetry(…)`.
  unfoldable pub retried :
      {R : Type 0}
      → ℕ
      → R
      → (S → (R × Option Err) × S)
      → Session S
      → Option ((R × Option Err) × Session S)
  retried {R} fuel nothing attempt s =
      elim (call_with_retry f.world {R = R} fuel (new_retry_loop f.world f.retry_policy s.server)
        (with_conn nothing attempt) s.server) [
          | none ↦ none
          | some (result, t) ↦ some (result, record s { server = t })
        ]

  -- `if events != nil && watcher != nil { go NewWatchers(watcher).Watch(events) }`.
  unfoldable pub watch_events : Watching → Option ℕ → S → S
  watch_events w none s = s
  watch_events w (some events) s = elim (w.watcher) [
    | none ↦ s
    | some watcher ↦ f.watch watcher events s
  ]
