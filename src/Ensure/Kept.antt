-- ===== src/Ensure/Kept.antt =====
-- Ensure (paths.go) only asks for the connection, looks for nodes and creates them.
use curator_go.Base.{
  ℕ, ◌≡◌, refl, Bool, Option, none, some, arith, Bytes, Option-cases, Bool-cases, inl, inr,
}
use curator_go.Errors.{Err}
use curator_go.Zk.{Conn, AclProvider}
use curator_go.Path.Dirs.{make_dirs}
use curator_go.Path.Dirs.Subtree.{Leaves}
use curator_go.Path.Dirs.Kept.{IsMaking, make_dirs-Leaves}
use curator_go.Retry.{World, Policy, new_retry_loop, call_with_retry}
use curator_go.Retry.Attempts.{unasked_keeps}
use curator_go.Ensure.{Shared, attempt, helper_ensure, ensure}

module _ {S A T : Type 0} (w : World S) (policy : Policy S) (conn : Conn S A T)
    (connect : S → Option Err × S) (provider : Option (AclProvider A)) (P : S → Type 0)
    (law : IsMaking conn P) (connects : (s : S) → P s → P (connect s).1) where
  attempt-keeps :
      (path : Bytes) (make_last : Bool) (s : S)
      → P s
      → P (attempt w policy conn connect provider path make_last s).1
  unfolding attempt
  attempt-keeps path make_last s h = go (connect s).0 (connect s).1 (connects s h)
    where
      made :
          (o : Option (Option Err × S)) (t : S)
          → P t
          → Leaves P o
          → let r : (Unit {0} × Option Err) × S = elim o [
            | none ↦ ((tt, none), t)
            | some (err', s2) ↦ ((tt, err'), s2)
          ] in
            P r.1
      made none t k l = k
      made (some (err', s2)) t k l = l

      go :
          (err : Option Err) (t : S)
          → P t
          → let r : (Unit {0} × Option Err) × S = elim err [
            | some e ↦ ((tt, some e), t)
            | none ↦ elim (make_dirs conn path make_last provider t) [
              | none ↦ ((tt, none), t)
              | some (err', s2) ↦ ((tt, err'), s2)
            ]
          ] in
            P r.1
      go (some e) t k = k
      go none t k =
          made (make_dirs conn path make_last provider t) t k
            (make_dirs-Leaves conn provider P law path make_last t k)

  pub ensure-keeps :
      (fuel : ℕ) (sh : Shared) (s : S) {r : Option Err × Shared × S}
      → P s
      → ensure w policy conn connect provider fuel sh none s ≡ some r
      → P r.2
  unfolding ensure helper_ensure new_retry_loop
  ensure-keeps fuel sh s {r} h e =
      let path = sh.owner.path in
      let make_last = sh.owner.make_last_node in
      let proc = attempt w policy conn connect provider path make_last in
      elim (Bool-cases sh.owner.has_helper) [
        | inr no_helper ↦ ground arith
        | inl has_one ↦ elim (Bool-cases sh.started) [
          | inl started ↦ ground arith
          | inr fresh ↦
              elim (Option-cases (call_with_retry w fuel (new_retry_loop w policy s) proc s)) [
                | inl out ↦ absurd (ground arith)
                | inr (done, e') ↦
                    let kept =
                      (unasked_keeps w proc P (λ x. Unit {0})
                        (λ t k. (tt, attempt-keeps path make_last t k)) fuel
                        (new_retry_loop w policy s) s {r = done.0} {t = done.1} refl h e').1 in
                    ground arith
              ]
        ]
      ]
