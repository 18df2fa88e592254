-- ===== src/Path/Dirs.antt =====
-- MakeDirs and DeleteChildren (paths.go) over a connection. A loop and a recursion whose length
-- the server decides take fuel; `none` means that the fuel ran out.
pub mod SubPaths
pub mod Ancestors
pub mod Subtree
pub mod Kept
pub mod Endings
mod Tests
use curator_go.Base.{
  ℕ, zero, suc, ◌+◌, Bool, true, false, Option, none, some, List, [], ◌∷◌, ltb, ◌==◌, if◌then◌else◌,
  length, take, drop, Bytes, index,
}
use curator_go.Errors.{Err, bad_path, is_node_exists, is_not_empty, is_no_node}
use curator_go.Zk.{Slice, elements, Conn, AclProvider, any_version}
use curator_go.Path.{path_separator, join_path}
use curator_go.Path.Validate.{validate_path}

-- `len(acls) == 0`, true of a nil slice too.
abbrev is_empty : {A : Type 0} → Slice A → Bool
is_empty none = true
is_empty (some []) = true
is_empty (some (a ∷ l)) = false

-- The ACL that MakeDirs gives a node: the provider's for the path, its default where that is
-- empty, and OPEN_ACL_UNSAFE for a nil slice.
acls_for : {A : Type 0} → Slice A → Option (AclProvider A) → Bytes → Slice A
acls_for fallback none path = fallback
acls_for fallback (some p) path =
    let acls = p.get_acl_for_path path in
    elim (if is_empty acls then p.get_default_acl else acls) [ none ↦ fallback | some l ↦ some l ]

-- An error is kept unless it says that the node is there already.
abbrev unless_node_exists : Option Err → Option Err
unless_node_exists none = none
unless_node_exists (some e) = if is_node_exists e then none else some e

abbrev persistent : ℕ
persistent = 0

-- The end of the next sub-path, or `none` where the loop returns.
pub next_pos : Bytes → Bool → ℕ → Option ℕ
next_pos path make_last pos = elim (index (drop (pos + 1) path) path_separator) [
  | none ↦ if make_last then some (length path) else none
  | some idx ↦ some (pos + idx + 1)
]

-- The same with the loop's own test: `none` where the loop is left.
pub round_end : Bytes → Bool → ℕ → Option ℕ
round_end path make_last pos = if ltb pos (length path) then next_pos path make_last pos else none

module _ {S A T : Type 0} (conn : Conn S A T) where
  -- The body of the loop of MakeDirs for one sub-path.
  pub ensure_node : Option (AclProvider A) → Bytes → S → Option Err × S
  unfolding acls_for
  ensure_node provider sub s =
      let (found, s1) = conn.exists sub s in
      elim (found.2) [
        | some e ↦ (some e, s1)
        | none ↦
            if found.0
            then (none, s1)
            else (let (made, s2) =
                  conn.create sub (some []) persistent (acls_for conn.open_acl_unsafe provider sub)
                    s1 in
                (unless_node_exists made.1, s2))
      ]

  -- The loop of MakeDirs.
  make_dirs_from : Option (AclProvider A) → Bool → ℕ → Bytes → ℕ → S → Option (Option Err × S)
  make_dirs_from provider make_last zero path pos s = none
  make_dirs_from provider make_last (suc fuel) path pos s = elim (round_end path make_last pos) [
    | none ↦ some (none, s)
    | some next ↦
        let (err, s') = ensure_node provider (take next path) s in
        elim err [
          | some e ↦ some (some e, s')
          | none ↦ make_dirs_from provider make_last fuel path next s'
        ]
  ]

  unfoldable pub make_dirs : Bytes → Bool → Option (AclProvider A) → S → Option (Option Err × S)
  unfolding make_dirs_from round_end next_pos ensure_node validate_path
  make_dirs path make_last provider s = elim (validate_path path) [
    | some e ↦ some (some (bad_path e), s)
    | none ↦ make_dirs_from provider make_last (suc (length path)) path 1 s
  ]

  -- The loop over the children, with the recursive call passed in.
  delete_each :
      (Bytes → S → Option (Option Err × S)) → Bytes → List Bytes → S → Option (Option Err × S)
  delete_each call path [] s = some (none, s)
  delete_each call path (child ∷ rest) s = elim (call (join_path path (child ∷ [])) s) [
    | none ↦ none
    | some (some e, s') ↦ some (some e, s')
    | some (none, s') ↦ delete_each call path rest s'
  ]

  -- The deletion of the node itself, with the recursive call passed in.
  delete_self : (Bytes → S → Option (Option Err × S)) → Bytes → S → Option (Option Err × S)
  delete_self call path s =
      let (err, s') = conn.delete path any_version s in
      elim err [
        | none ↦ some (none, s')
        | some e ↦
            let again = call path s' in
            if is_not_empty e
            then again
            else (if is_no_node e then some (none, s') else some (some e, s'))
      ]

  -- The body behind the validation, with the recursive call passed in.
  delete_node : (Bytes → S → Option (Option Err × S)) → Bytes → Bool → S → Option (Option Err × S)
  delete_node call path self s =
      let (found, s1) = conn.children path s in
      elim (found.2) [
        | some e ↦ some (some e, s1)
        | none ↦ elim (delete_each call path (elements found.0) s1) [
          | none ↦ none
          | some (some e, s2) ↦ some (some e, s2)
          | some (none, s2) ↦ if self then delete_self call path s2 else some (none, s2)
        ]
      ]

  pub delete_children : ℕ → Bytes → Bool → S → Option (Option Err × S)
  delete_children zero path self s = none
  delete_children (suc fuel) path self s = elim (validate_path path) [
    | some e ↦ some (some (bad_path e), s)
    | none ↦ delete_node (λ p t. delete_children fuel p true t) path self s
  ]
