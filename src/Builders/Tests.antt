-- ===== src/Builders/Tests.antt =====
-- Requests of the builders over a small server.
use curator_go.Base.{
  ℕ, suc, ◌-◌, ◌≡◌, ap, ◌∙◌, ◌++◌, ◌==◌, ◌||◌, Bool-cases, take, refl, inl, inr, true, false, none,
  some, List, [], ◌∷◌, arith, length, Bytes, text, ℤ, bytes_eq, has_prefix, has_suffix, drop_last,
}
use curator_go.Zk.{Request, create_request, delete_request, MultiResponse, any_version}
use curator_go.Zk.Sample.{server, has_node, remove_node, remove_node-other}
use curator_go.Path.{slash, path_separator, join_path, join_parent, join_child, trim_child}
use curator_go.Path.Dirs.Kept.{IsMaking}
use curator_go.Path.Dirs.Subtree.{IsBelow, here, below}
use curator_go.Retry.{call_with_retry, new_retry_loop, is_final}
use curator_go.Namespace.{fix_for_namespace, unfix_for_namespace}
use curator_go.Framework.{returned, fixed, retried, with_conn, in_foreground}
use curator_go.Framework.Sample.{client, session}
use curator_go.Builders.Create.{CreateBuilder}
use curator_go.Builders.Delete.{
  DeleteBuilder, delete_attempt, delete_in_foreground, delete_for_path,
}
use curator_go.Builders.Delete.Subtree.{delete_for_path-keeps}
use curator_go.Builders.Sync.{SyncBuilder, sync_in_foreground, sync_for_path, sync_background}
use curator_go.Builders.Sync.Modes.{SyncsLater, sync_background_agrees}

abbrev creating : CreateBuilder ℕ
creating = record {
  create_mode = 0;
  backgrounding = in_foreground;
  create_parents_if_needed = true;
  compress = false;
  acling = record { acl_list = none; acl_provider = client.acl_provider };
}

abbrev deleting : DeleteBuilder
deleting = record {
  backgrounding = in_foreground;
  deleting_children_if_needed = true;
  version = any_version;
}

-- The node "/x" is outside of the namespace.
a_deleted :
    delete_for_path client 1 4 deleting (text "/a") (session (text "/ns/a" ∷ text "/x" ∷ []))
    ≡ some (returned tt none (session (text "/x" ∷ [])))
unfolding delete_for_path delete_in_foreground delete_attempt retried with_conn call_with_retry
    new_retry_loop is_final fixed fix_for_namespace join_path has_prefix has_suffix drop_last
    bytes_eq has_node remove_node
a_deleted = refl

-- What is at or below "/ns/a" has another name than "/x".
abbrev Inside : Bytes → Type 0
Inside q = (r : Bytes) × (q ≡ slash ∷ (110 ∷ r))

join_parent-Inside :
    (r : Bytes) → (x : Bytes) × (join_parent (slash ∷ (110 ∷ r)) ≡ slash ∷ (110 ∷ x))
unfolding join_parent has_suffix has_prefix drop_last bytes_eq
join_parent-Inside [] = ([], refl)
join_parent-Inside (e ∷ r) =
    elim (Bool-cases (has_suffix (slash ∷ (110 ∷ (e ∷ r))) path_separator)) [
      | inl ends ↦
          let k : suc (suc (suc (length r))) - 1 ≡ suc (suc (length r)) = omega arith in
          (take (length r) (e ∷ r), rw ends (rw k refl))
      | inr other ↦ (e ∷ r, rw other refl)
    ]

join_child-Inside : (q child : Bytes) → Inside q → Inside (join_child q child)
unfolding join_child
join_child-Inside q child (r, e) =
    elim (Bool-cases (length child == 0 || bytes_eq child path_separator)) [
      | inl empty ↦ (r, rw (e, empty) (ground arith))
      | inr filled ↦ (r ++ slash ∷ trim_child child, rw (e, filled) refl)
    ]

IsBelow-Inside : {p q : Bytes} → Inside p → IsBelow p q → Inside q
unfolding join_path
IsBelow-Inside u here = u
IsBelow-Inside u (below {p = q'} child b) =
    let (r, e) = IsBelow-Inside u b in
    let (x, e') = join_parent-Inside r in
    join_child-Inside (join_parent q') child (x, ap join_parent e ∙ e')

ns_a-Inside : Inside (fix_for_namespace (text "ns") (text "/a"))
unfolding fix_for_namespace join_path has_prefix has_suffix drop_last bytes_eq
ns_a-Inside = (text "s/a", refl)

server-IsMaking : IsMaking server (λ s. has_node (text "/x") s ≡ true)
unfolding has_node
server-IsMaking = record { looks = λ q s h. h; creates = λ q payload flags acl s h. ground arith }

server_spares :
    (q : Bytes) (version : ℤ) (s : List Bytes)
    → IsBelow (fix_for_namespace (text "ns") (text "/a")) q
    → has_node (text "/x") s ≡ true
    → has_node (text "/x") (server.delete q version s).1 ≡ true
server_spares q version s b h =
    let (r, e) = IsBelow-Inside ns_a-Inside b in
    let apart : bytes_eq (text "/x") q ≡ false = rw e (unfold bytes_eq in refl) in
    ground (arith, remove_node-other (text "/x") q s apart h)

delete_for_path-keeps_example : has_node (text "/x") (text "/x" ∷ []) ≡ true
delete_for_path-keeps_example =
    delete_for_path-keeps client (text "/a") (λ s. has_node (text "/x") s ≡ true) (λ s h. h)
      server-IsMaking (λ p s h. h) server_spares 1 4 deleting
      (session (text "/ns/a" ∷ text "/x" ∷ [])) refl (unfold has_node bytes_eq in refl) a_deleted

abbrev syncing : SyncBuilder
syncing = record { backgrounding = in_foreground }

-- The path "/ns" below the namespace.
ns_synced :
    sync_for_path client 1 syncing (text "/ns") (session [])
    ≡ some (returned (text "/ns") none (session []))
unfolding sync_for_path sync_in_foreground retried with_conn call_with_retry new_retry_loop is_final
    fixed fix_for_namespace unfix_for_namespace join_path has_prefix has_suffix drop_last bytes_eq
ns_synced = refl

sync_background_agrees_example :
    SyncsLater client
      (text "/ns")
      none
      (text "/ns")
      (session [])
      (sync_for_path client 1 (sync_background none (some 7) syncing) (text "/ns") (session []))
sync_background_agrees_example =
    sync_background_agrees client 1 syncing none 7 (text "/ns") (session []) refl ns_synced

abbrev answer : MultiResponse ℕ
answer = record { stat = some 1; string = text "/ns/a" }

abbrev requests : List (Request ℕ)
requests =
    create_request (text "/ns/a") none none 0 ∷ delete_request (text "/ns/b") any_version ∷ []
