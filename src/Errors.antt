-- ===== src/Errors.antt =====
-- The errors that the program tells apart: the ZooKeeper errors that api.go passes on, the errors
-- of ValidatePath (paths.go), those of state.go and client.go, and network errors.
use curator_go.Base.{ℕ, Bool, true, false}

pub data ZkError : Type 0 where
  connection_closed unknown api_error no_node no_auth bad_version : ZkError
  no_children_for_ephemerals node_exists not_empty session_expired invalid_acl : ZkError
  auth_failed closing nothing session_moved : ZkError

-- A number is the byte offset that the message names.
pub data PathError : Type 0 where
  null_path no_leading_slash trailing_slash : PathError
  null_character empty_node relative_path invalid_character : ℕ → PathError

pub data Err : Type 0 where
  zk : ZkError → Err
  bad_path : PathError → Err
  connection_loss timed_out not_started already_started not_supported : Err
  started_twice not_owner negative_count lost_connection : Err
  -- a `net.Error`, with its answers to Timeout() and Temporary()
  net : Bool → Bool → Err
  other : ℕ → Err

-- The comparisons `err == zk.Err…` that the code makes.
abbrev pub is_no_node : Err → Bool
is_no_node (zk no_node) = true
is_no_node _ = false

abbrev pub is_node_exists : Err → Bool
is_node_exists (zk node_exists) = true
is_node_exists _ = false

abbrev pub is_bad_version : Err → Bool
is_bad_version (zk bad_version) = true
is_bad_version _ = false

abbrev pub is_not_empty : Err → Bool
is_not_empty (zk not_empty) = true
is_not_empty _ = false
