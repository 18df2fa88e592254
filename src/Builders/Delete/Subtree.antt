-- ===== src/Builders/Delete/Subtree.antt =====
-- A delete request (delete.go) deletes the node and what is below it.
use curator_go.Base.{
  ℕ, ◌≡◌, Bool, true, Option, some, arith, Option-cases, inl, inr, Bytes, ℤ, false, none, ap, sym,
  ◌∙◌,
}
use curator_go.Errors.{Err}
use curator_go.Zk.{any_version}
use curator_go.Path.Dirs.{delete_children}
use curator_go.Path.Dirs.Subtree.{IsBelow, here, delete_below-Leaves}
use curator_go.Path.Dirs.Kept.{IsMaking}
use curator_go.Ensure.{ensure}
use curator_go.Ensure.Kept.{ensure-keeps}
use curator_go.Namespace.{fix_for_namespace}
use curator_go.Framework.{Framework, Session, retried, fixed, returned}
use curator_go.Framework.Loops.{retried_keeps, fixed-path}
use curator_go.Builders.Delete.{
  DeleteBuilder, delete_attempt, delete_in_foreground, delete_for_path,
}

module _ {S A T : Type 0} (f : Framework S A T) (path : Bytes) (P : S → Type 0)
    (connects : (s : S) → P s → P (f.connect s).1)
    (reads : (p : Bytes) (s : S) → P s → P (f.conn.children p s).1)
    (deletes : (q : Bytes) (version : ℤ) (s : S)
      → IsBelow path q
      → P s
      → P (f.conn.delete q version s).1) where
  delete_attempt-keeps :
      (depth : ℕ) (b : DeleteBuilder) (s : S) → P s → P (delete_attempt f depth b path s).1
  unfolding delete_attempt
  delete_attempt-keeps depth b s h =
      let first = deletes path b.version s here h in
      let below =
        delete_below-Leaves f.conn P reads path (λ q i t k. deletes q any_version t i k) depth path
          true here (f.conn.delete path b.version s).1 first in
      elim (Option-cases
        (delete_children f.conn depth path true (f.conn.delete path b.version s).1)) [
          | inl out ↦ ground arith
          | inr (done, e) ↦ let kept : P done.1 = rw e at below in ground arith
        ]

  delete_in_foreground-keeps :
      (fuel depth : ℕ) (b : DeleteBuilder) (s : Session S) {err : Option Err} {t : Session S}
      → P s.server
      → delete_in_foreground f fuel depth b path s ≡ some (err, t)
      → P t.server
  unfolding delete_in_foreground
  delete_in_foreground-keeps fuel depth b s {err} {t} h e =
      elim (Option-cases (retried f fuel true (delete_attempt f depth b path) s)) [
        | inl out ↦ ground arith
        | inr (done, e1) ↦
            let kept =
              (retried_keeps f true (delete_attempt f depth b path) P
                (λ (r : Bool × Option Err). Unit {0}) connects (λ u err' k lost. tt)
                (λ u k. (tt, delete_attempt-keeps depth b u k)) fuel s {r = done.0} {t = done.1} h
                e1).1 in
            ground arith
      ]

-- fixForNamespace only asks for the connection, looks for nodes and creates them.
fixed-keeps :
    {S A T : Type 0} (f : Framework S A T) (P : S → Type 0) (fuel : ℕ) (given : Bytes)
    (s : Session S) {r : Bytes × Session S}
    → IsMaking f.conn P
    → ((t : S) → P t → P (f.connect t).1)
    → P s.server
    → fixed f fuel given s ≡ some r
    → P r.1.server
unfolding fixed
fixed-keeps f P fuel given s {r} makes connects h e = elim (Option-cases s.ensures) [
  | inl no_namespace ↦ ground arith
  | inr (shared, has) ↦
      elim (Option-cases
        (ensure f.world f.retry_policy f.conn f.connect none fuel shared none s.server)) [
          | inl out ↦ absurd (ground arith)
          | inr (done, e') ↦
              let kept =
                ensure-keeps f.world f.retry_policy f.conn f.connect none P makes connects fuel
                  shared s.server {r = done} h e' in
              ground arith
        ]
]

-- A delete request in the foreground deletes nothing but the node at the path with the namespace in
-- front, and what is below it: whatever is kept by asking for the connection, by looking for,
-- listing and creating nodes anywhere (the namespace's nodes are looked for and created first), and
-- by deleting nodes at or below that path, the request keeps, however often it is tried and with
-- whichever error it returns.
pub delete_for_path-keeps :
    {S A T : Type 0} (f : Framework S A T) (given : Bytes) (P : S → Type 0)
    → ((s : S) → P s → P (f.connect s).1)
    → IsMaking f.conn P
    → ((p : Bytes) (s : S) → P s → P (f.conn.children p s).1)
    → ((q : Bytes) (version : ℤ) (s : S)
        → IsBelow (fix_for_namespace f.namespace.namespace given) q
        → P s
        → P (f.conn.delete q version s).1)
    → (fuel depth : ℕ) (b : DeleteBuilder) (s : Session S) {err : Option Err} {t : Session S}
    → b.backgrounding.in_background ≡ false
    → P s.server
    → delete_for_path f fuel depth b given s ≡ some (returned tt err t)
    → P t.server
unfolding delete_for_path
delete_for_path-keeps f given P connects makes reads deletes fuel depth b s {err} {t} fg h e =
    elim (Option-cases (fixed f fuel given s)) [
      | inl out ↦ absurd (ground arith)
      | inr (r, e1) ↦
          let kept = fixed-keeps f P fuel given s {r = r} makes connects h e1 in
          let path = fix_for_namespace f.namespace.namespace given in
          let adjusted : r.0 ≡ path = fixed-path f fuel given s {adjusted = r.0} {t = r.1} e1 in
          elim (Option-cases (delete_in_foreground f fuel depth b r.0 r.1)) [
            | inl out ↦ absurd (ground arith)
            | inr (done, e2) ↦
                let ends : delete_in_foreground f fuel depth b path r.1 ≡ some done =
                  ap (λ p. delete_in_foreground f fuel depth b p r.1) (sym adjusted) ∙ e2 in
                let later =
                  delete_in_foreground-keeps f path P connects reads deletes fuel depth b r.1
                    {err = done.0} {t = done.1} kept ends in
                ground arith
          ]
    ]
