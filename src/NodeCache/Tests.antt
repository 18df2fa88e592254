-- ===== src/NodeCache/Tests.antt =====
-- Node caches over a small server.
use curator_go.Base.{ℕ, ◌≡◌, refl, true, false, Option, none, some, List, [], ◌∷◌, text, Bytes}
use curator_go.Errors.{zk, no_node}
use curator_go.Retry.{call_with_retry, new_retry_loop, is_final}
use curator_go.Framework.{Event, EventType, blank, retried, with_conn}
use curator_go.Namespace.{unfix_for_namespace}
use curator_go.Path.{get_node_from_path, join_path}
use curator_go.Zk.Sample.{has_node}
use curator_go.Framework.Sample.{client, session}
use curator_go.Builders.Exists.{
  ExistsBuilder, exists_in_background, exists_in_foreground, exists_attempt, look_up,
}
use curator_go.Builders.Exists.Answers.{AnswersMissing}
use curator_go.NodeCache.{CacheClient, ChildData, new_node_cache}
use curator_go.NodeCache.Told.{add_all, add_all-silent, set_all}
use curator_go.NodeCache.Idle.{Action, acts, acts-new_node_cache}
use curator_go.NodeCache.Missing.{Answer, Cached, processes, processes-Cached}

-- A client whose state lists the calls of the listeners; 99 stands for a request.
abbrev quiet : CacheClient (List ℕ) ℕ
quiet = record {
  ensure = λ s. (none, s);
  get_data = λ compressed s. ((none, none, none), s);
  check_exists = λ s. (none, 99 ∷ s);
  request_data = λ compressed s. 99 ∷ s;
  node_changed = λ listener s. listener ∷ s;
  same_stat = λ a b. true;
}

abbrev cached : Option (ChildData ℕ)
cached = some (record { stat = none; payload = some (1 ∷ []) })

acts-new_node_cache_example :
    (acts quiet (Action.starts false ∷ Action.watches ∷ []) (new_node_cache false) []).1 ≡ []
acts-new_node_cache_example =
    acts-new_node_cache quiet (λ s. s) (λ s. refl) (λ compressed s. refl) false
      (Action.starts false ∷ Action.watches ∷ []) []

-- The same cache over the state of the server.
abbrev quiet_server : CacheClient (List Bytes) ℕ
quiet_server = record {
  ensure = λ s. (none, s);
  get_data = λ compressed s. ((none, none, none), s);
  check_exists = λ s. (none, s);
  request_data = λ compressed s. s;
  node_changed = λ listener s. s;
  same_stat = λ a b. true;
}

client-AnswersMissing : AnswersMissing client
client-AnswersMissing = record {
  exists = λ path s e. cc;
  exists_w = λ path s e. cc;
  connect = λ s e. cc;
}

abbrev asking : ExistsBuilder
asking = record {
  backgrounding = record { in_background = true; context = none; callback = some 7 };
  watching = record { watcher = none; watched = false };
}

-- The answer for a node that is missing.
abbrev missing_answer : Event ℕ ℕ
missing_answer = record (blank EventType.exists none (text "/a") none) { name = text "a" }

is_missing :
    exists_in_background client 1 asking (text "/ns/a") (session [])
    ≡ some (some missing_answer, session [])
unfolding exists_in_background exists_in_foreground exists_attempt look_up retried with_conn
    call_with_retry new_retry_loop is_final unfix_for_namespace get_node_from_path has_node
    join_path
is_missing = refl

abbrev deleted_answer : Event ℕ ℕ
deleted_answer = blank EventType.get_data (some (zk no_node)) (text "/a") none

processes-Cached_example :
    Cached
      (processes quiet_server
        (missing_answer ∷ deleted_answer ∷ [])
        (record (new_node_cache false) { child_data = cached })
        []).0
processes-Cached_example =
    processes-Cached quiet_server client (missing_answer ∷ deleted_answer ∷ [])
      (record (new_node_cache false) { child_data = cached }) [] client-AnswersMissing
      (
        Answer.existed 1 asking (text "/ns/a") (session []) (session []) is_missing,
        (Answer.got refl, tt),
      )
      (record { stat = none; payload = some (1 ∷ []) }, refl)

add_all-silent_example :
    (set_all quiet (cached ∷ none ∷ []) (add_all (7 ∷ []) (new_node_cache false)) []).1 ≡ []
add_all-silent_example = add_all-silent quiet false (7 ∷ []) (cached ∷ none ∷ []) []
