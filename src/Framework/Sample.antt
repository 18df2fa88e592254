-- ===== src/Framework/Sample.antt =====
-- A client (framework.go) of the small server for the tests, with the namespace "ns".
use curator_go.Base.{ℕ, false, none, some, List, [], ◌∷◌, Bytes, text, pos}
use curator_go.Errors.{Err}
use curator_go.Zk.{AclProvider}
use curator_go.Zk.Sample.{server}
use curator_go.Retry.{World}
use curator_go.Framework.{Framework, Session}

abbrev still : World (List Bytes)
still = record { since = λ start s. pos 0; now = λ s. 0; add_count = λ c s. s }

abbrev open_acls : AclProvider ℕ
open_acls = record { get_default_acl = some (31 ∷ []); get_acl_for_path = λ p. none }

-- It never decompresses.
abbrev pub client : Framework (List Bytes) ℕ ℕ
client = record {
  world = still;
  retry_policy = λ count elapsed sleeper s. (false, s);
  connect = λ s. (none, s);
  conn = server;
  watch = λ w events s. s;
  namespace = record { namespace = text "ns"; ensures = none };
  compress = λ path payload. (payload, none);
  decompress = λ path payload. (none, some (Err.other 1));
  default_data = none;
  acl_provider = open_acls;
}

abbrev pub session : List Bytes → Session (List Bytes)
session nodes = record { ensures = none; server = nodes }
