-- ===== src/Namespace.antt =====
-- namespace.go: the namespace of a client, put in front of paths and taken off again.
pub mod Laws
pub mod Cache
mod Tests
use curator_go.Base.{
  ℕ, ◌+◌, Bool, true, false, ◌&&◌, Option, none, some, List, [], ◌∷◌, ltb, if◌then◌else◌, length,
  drop, Bytes, has_prefix, bytes_eq,
}
use curator_go.Errors.{PathError}
use curator_go.Path.{slash, path_separator, join_path}
use curator_go.Path.Validate.{validate_path}

-- namespaceImpl; `ensures` is the path of its EnsurePath, `none` for a nil one.
pub record Namespace : Type 0 where
  pub namespace : Bytes
  pub ensures : Option Bytes

-- newNamespace, with the error that it logs: an invalid namespace is replaced by the empty one.
pub new_namespace : Bytes → Namespace × Option PathError
new_namespace namespace =
    if ltb 0 (length namespace)
    then elim (validate_path (slash ∷ namespace)) [
      | some e ↦ (record { namespace = []; ensures = none }, some e)
      | none ↦ (
        record {
          namespace = namespace;
          ensures = some (join_path path_separator (namespace ∷ []));
        },
        none,
      )
    ]
    else (record { namespace = namespace; ensures = none }, none)

-- FixForNamespace, whose error is nil on every branch.
unfoldable pub fix_for_namespace : Bytes → Bytes → Bytes
fix_for_namespace namespace path =
    if ltb 0 (length namespace) then join_path namespace (path ∷ []) else path

-- namespaceImpl.unfixForNamespace.
unfoldable pub unfix_for_namespace : Bytes → Bytes → Bytes
unfolding has_prefix
unfix_for_namespace namespace path =
    let prefix = join_path namespace [] in
    if ltb 0 (length namespace) && ltb 0 (length path)
    then (if has_prefix path prefix
        then (if ltb (length prefix) (length path)
            then drop (length prefix) path
            else path_separator)
        else path)
    else path

-- namespaceFacadeCache: the facades made so far, by namespace. A facade is told apart by the
-- number of those made before it.
pub record Facade : Type 0 where
  pub id : ℕ
  pub namespace : Namespace

pub record FacadeCache : Type 0 where
  pub made : ℕ
  pub cache : List (Bytes × Facade)

pub find : Bytes → List (Bytes × Facade) → Option Facade
find key [] = none
find key ((k, f) ∷ rest) = if bytes_eq k key then some f else find key rest

-- namespaceFacadeCache.Get.
pub get : FacadeCache → Bytes → FacadeCache × Facade
get c key = elim (find key c.cache) [
  | some f ↦ (c, f)
  | none ↦
      let f : Facade = record { id = c.made; namespace = (new_namespace key).0 } in
      (record { made = c.made + 1; cache = (key, f) ∷ c.cache }, f)
]
