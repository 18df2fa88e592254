-- ===== src/Path/Dirs/Kept.antt =====
-- MakeDirs (paths.go) only looks for nodes and creates them.
use curator_go.Base.{
  ℕ, zero, suc, Bool, true, false, Option, none, some, [], Bytes, Option-cases, inl, inr, take,
  length, if◌then◌else◌,
}
use curator_go.Errors.{Err}
use curator_go.Zk.{Conn, AclProvider, Slice}
use curator_go.Path.Validate.{validate_path}
use curator_go.Path.Dirs.{
  acls_for, persistent, unless_node_exists, round_end, ensure_node, make_dirs_from, make_dirs,
}
use curator_go.Path.Dirs.Subtree.{Leaves}

-- What looking for nodes and creating nodes keep.
pub record IsMaking {S A T : Type 0} (conn : Conn S A T) (P : S → Type 0) : Type 0 where
  pub looks : (q : Bytes) (s : S) → P s → P (conn.exists q s).1
  pub creates :
      (q : Bytes) (payload : Slice ℕ) (flags : ℕ) (acl : Slice A) (s : S)
      → P s
      → P (conn.create q payload flags acl s).1

module _ {S A T : Type 0} (conn : Conn S A T) (provider : Option (AclProvider A)) (P : S → Type 0)
    (law : IsMaking conn P) where
  ensure_node-keeps : (sub : Bytes) (s : S) → P s → P (ensure_node conn provider sub s).1
  unfolding ensure_node
  ensure_node-keeps sub s h =
      go (conn.exists sub s).0.2 (conn.exists sub s).0.0 (conn.exists sub s).1 (law.looks sub s h)
    where
      made : S → Option Err × S
      made t =
          let (made, s2) =
            conn.create sub (some []) persistent (acls_for conn.open_acl_unsafe provider sub) t in
          (unless_node_exists made.1, s2)

      go :
          (err : Option Err) (found : Bool) (t : S)
          → P t
          → let r : Option Err × S = elim err [
            | some e ↦ (some e, t)
            | none ↦ if found then (none, t) else made t
          ] in
            P r.1
      go (some e) found t k = k
      go none true t k = k
      go none false t k =
          law.creates sub (some []) persistent (acls_for conn.open_acl_unsafe provider sub) t k

  make_dirs_from-Leaves :
      (make_last : Bool) (fuel : ℕ) (path : Bytes) (pos : ℕ) (s : S)
      → P s
      → Leaves P (make_dirs_from conn provider make_last fuel path pos s)
  unfolding make_dirs_from
  make_dirs_from-Leaves make_last zero path pos s h = tt
  make_dirs_from-Leaves make_last (suc fuel) path pos s h =
      elim (Option-cases (round_end path make_last pos)) [
        | inl done ↦ rw (done, make_dirs_from) h
        | inr (next, e) ↦
            let made = ensure_node conn provider (take next path) s in
            let kept = ensure_node-keeps (take next path) s h in
            elim (Option-cases made.0) [
              | inl fine ↦
                  rw (e, make_dirs_from)
                    (rw (fine, make_dirs_from)
                      (make_dirs_from-Leaves make_last fuel path next made.1 kept))
              | inr (err, bad) ↦ rw (e, make_dirs_from) (rw (bad, make_dirs_from) kept)
            ]
      ]

  pub make_dirs-Leaves :
      (path : Bytes) (make_last : Bool) (s : S)
      → P s
      → Leaves P (make_dirs conn path make_last provider s)
  unfolding make_dirs
  make_dirs-Leaves path make_last s h = elim (Option-cases (validate_path path)) [
    | inl valid ↦
        rw (valid, make_dirs) (make_dirs_from-Leaves make_last (suc (length path)) path 1 s h)
    | inr (e, bad) ↦ rw (bad, make_dirs) h
  ]
