-- ===== src/Zk.antt =====
-- The connection to a ZooKeeper server: the interface ZookeeperConnection of client.go, and the
-- types and constants of the package go-zookeeper that the program uses. The server is not part
-- of the program: its state `S`, its ACL entries `A` and its stats `T` are parameters.
pub mod Sample
use curator_go.Base.{ℕ, Bool, Option, none, some, List, [], Bytes, ℤ, negsuc}
use curator_go.Errors.{Err}

-- A Go slice: `none` is nil, which the code tells apart from an empty slice.
abbrev pub Slice : Type 0 → Type 0
Slice A = Option (List A)

-- The elements that a loop over a slice sees.
abbrev pub elements : {A : Type 0} → Slice A → List A
elements none = []
elements (some l) = l

-- An operation of a transaction, as it is sent to the server.
pub data Request (A : Type 0) : Type 0 where
  create_request : (path : Bytes) → (payload : Slice ℕ) → (acl : Slice A) → (flags : ℕ) → Request A
  delete_request : (path : Bytes) → (version : ℤ) → Request A
  set_data_request : (path : Bytes) → (payload : Slice ℕ) → (version : ℤ) → Request A
  check_version_request : (path : Bytes) → (version : ℤ) → Request A

pub record MultiResponse (T : Type 0) : Type 0 where
  pub stat : Option T
  pub string : Bytes

-- A call gets the state of the server and returns its results and the state that it leaves. The
-- error is the last result, as in Go: the others are returned beside it. A channel of events is
-- told apart by a number; `none` is a nil one.
pub record Conn (S A T : Type 0) : Type 0 where
  pub open_acl_unsafe : Slice A
  pub create : Bytes → Slice ℕ → ℕ → Slice A → S → (Bytes × Option Err) × S
  pub exists : Bytes → S → (Bool × Option T × Option Err) × S
  pub exists_w : Bytes → S → (Bool × Option T × Option ℕ × Option Err) × S
  pub delete : Bytes → ℤ → S → Option Err × S
  pub get : Bytes → S → (Slice ℕ × Option T × Option Err) × S
  pub get_w : Bytes → S → (Slice ℕ × Option T × Option ℕ × Option Err) × S
  pub set : Bytes → Slice ℕ → ℤ → S → (Option T × Option Err) × S
  pub children : Bytes → S → (Slice Bytes × Option T × Option Err) × S
  pub children_w : Bytes → S → (Slice Bytes × Option T × Option ℕ × Option Err) × S
  pub get_acl : Bytes → S → (Slice A × Option T × Option Err) × S
  pub set_acl : Bytes → Slice A → ℤ → S → (Option T × Option Err) × S
  pub multi : List (Request A) → S → (Option (List (MultiResponse T)) × Option Err) × S
  pub sync : Bytes → S → (Bytes × Option Err) × S

-- api.go: `AnyVersion`.
abbrev pub any_version : ℤ
any_version = negsuc 0

-- An ACLProvider (acl.go); a nil provider is `none`.
pub record AclProvider (A : Type 0) : Type 0 where
  pub get_default_acl : Slice A
  pub get_acl_for_path : Bytes → Slice A
