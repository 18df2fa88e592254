-- ===== src/Ensure/Tests.antt =====
-- EnsurePath (paths.go) over the small server.
use curator_go.Base.{◌≡◌, refl, true, false, Option, none, some, List, [], Bytes, text, pos}
use curator_go.Errors.{Err, lost_connection}
use curator_go.Zk.Sample.{server}
use curator_go.Retry.{World, Policy, call_with_retry, new_retry_loop, is_final, should_retry}
use curator_go.Ensure.{EnsurePath, Shared, ensure, ensure_once}

abbrev still : World (List Bytes)
still = record { since = λ start s. pos 0; now = λ s. 0; add_count = λ c s. s }

abbrev never : Policy (List Bytes)
never count elapsed sleeper s = (false, s)

abbrev no_connection : List Bytes → Option Err × List Bytes
no_connection s = (some lost_connection, s)

abbrev shared : Shared
shared = record {
  started = false;
  owner = record { path = text "/a/b"; make_last_node = true; has_helper = true };
}

abbrev view : EnsurePath
view = record { path = text "/a/b"; make_last_node = false; has_helper = true }

abbrev after_view : Option Err × Shared × List Bytes
after_view = (
  some lost_connection,
  record {
    started = true;
    owner = record { path = text "/a/b"; make_last_node = true; has_helper = false };
  },
  [],
)

-- The call on a view fails and makes nothing.
view_fails : ensure still never server no_connection none 3 shared (some view) [] ≡ some after_view
unfolding ensure call_with_retry new_retry_loop is_final should_retry
view_fails = refl

-- The owner's own call then returns no error, and makes nothing either.
ensure_once_example :
    ensure still never server no_connection none 3 after_view.1 none []
    ≡ some (none, after_view.1, [])
ensure_once_example =
    ensure_once still never server no_connection none 3 3 shared (some view) none [] [] refl
      view_fails
