-- ===== src/Builders/Delete/Modes.antt =====
-- A delete request (delete.go) in the foreground and in the background.
use curator_go.Base.{
  ℕ, ◌≡◌, refl, ap, ◌∙◌, if-true, true, false, Option, none, some, arith, Option-cases, inl, inr,
  Bytes,
}
use curator_go.Errors.{Err}
use curator_go.Path.{get_node_from_path}
use curator_go.Path.Names.{IsAbsolute}
use curator_go.Namespace.{unfix_for_namespace}
use curator_go.Namespace.Laws.{unfix_for_namespace-fix_for_namespace}
use curator_go.Framework.{
  Framework, Session, Event, EventType, blank, Call, returned, launched, fixed, deliver,
  path_or_given,
}
use curator_go.Framework.Loops.{fixed-path}
use curator_go.Builders.Delete.{
  DeleteBuilder, delete_attempt, delete_in_foreground, delete_in_background, delete_for_path,
  delete_background,
}

-- What a request in the background does, compared with the error and the session of the same
-- request in the foreground.
abbrev pub DeletesLater :
    {S A T : Type 0}
    → Framework S A T
    → Bytes
    → Option Err
    → Session S
    → Option (Call S A T (Unit {0}))
    → Type 0
DeletesLater f given err t none = ⊥
DeletesLater f given err t (some (returned p e s1)) = ⊥
DeletesLater {A} {T} f given err t (some (launched p e task s1)) =
    (e ≡ none)
    × (event : Event A T) × (task s1 ≡ some (some event, t))
    × (event.err ≡ err)
    × (event.path ≡ given)
    × (event.name ≡ get_node_from_path given)

delete_launched :
    {S A T : Type 0} (f : Framework S A T) (fuel depth : ℕ) (b : DeleteBuilder) (given : Bytes)
    (s : Session S) {r : Bytes × Session S}
    → b.backgrounding.in_background ≡ true
    → fixed f fuel given s ≡ some r
    → delete_for_path f fuel depth b given s
      ≡ some (launched tt none (delete_in_background f fuel depth b r.0 given) r.1)
unfolding delete_for_path
delete_launched f fuel depth b given s bg e = rw (e, delete_for_path) (if-true _ _ bg)

delete_returned :
    {S A T : Type 0} (f : Framework S A T) (fuel depth : ℕ) (b : DeleteBuilder) (given : Bytes)
    (s : Session S) {err : Option Err} {t : Session S}
    → b.backgrounding.in_background ≡ false
    → delete_for_path f fuel depth b given s ≡ some (returned tt err t)
    → (r : Bytes × Session S) × (fixed f fuel given s ≡ some r)
      × (delete_in_foreground f fuel depth b r.0 r.1 ≡ some (err, t))
unfolding delete_for_path
delete_returned f fuel depth b given s {err} {t} fg e = elim (Option-cases (fixed f fuel given s)) [
  | inl out ↦ absurd (ground arith)
  | inr (r, e1) ↦ elim (Option-cases (delete_in_foreground f fuel depth b r.0 r.1)) [
    | inl out ↦ absurd (ground arith)
    | inr (done, e2) ↦ (r, e1, ground arith)
  ]
]

delete_in_background-event :
    {S A T : Type 0} (f : Framework S A T) (fuel depth : ℕ) (b : DeleteBuilder) (path given : Bytes)
    (s : Session S) (callback : ℕ) {done : Option Err × Session S}
    → b.backgrounding.callback ≡ some callback
    → unfix_for_namespace f.namespace.namespace path ≡ given
    → delete_in_foreground f fuel depth b path s ≡ some done
    → (event : Event A T) × (delete_in_background f fuel depth b path given s
        ≡ some (some event, done.1))
      × (event.err ≡ done.0)
      × (event.path ≡ given)
      × (event.name ≡ get_node_from_path given)
unfolding delete_in_background deliver
delete_in_background-event {A} {T} f fuel depth b path given s callback {done} k shown e =
    let event : Event A T = record (blank EventType.delete done.0 given b.backgrounding.context) {
      name = get_node_from_path given;
    } in
    (event, ground (arith, either done.0), refl, refl, refl)
  where
    either : (err : Option Err) → path_or_given err given given ≡ given
    either none = refl
    either (some e) = refl

-- The mode changes nothing else.
delete_in_foreground-delete_background :
    {S A T : Type 0} (f : Framework S A T) (fuel depth : ℕ) (b : DeleteBuilder)
    (context callback : Option ℕ) (path : Bytes) (s : Session S)
    → delete_in_foreground f fuel depth (delete_background context callback b) path s
      ≡ delete_in_foreground f fuel depth b path s
unfolding delete_in_foreground delete_attempt delete_background
delete_in_foreground-delete_background f fuel depth b context callback path s = refl

-- A delete request for an absolute path in the background, with a callback, does what the same
-- request does in the foreground: the goroutine leaves the same session, and the callback gets the
-- same error and the path that the caller gave, whatever the namespace is.
pub delete_background_agrees :
    {S A T : Type 0} (f : Framework S A T) (fuel depth : ℕ) (b : DeleteBuilder) (context : Option ℕ)
    (callback : ℕ) (given : Bytes) (s : Session S) {err : Option Err} {t : Session S}
    → IsAbsolute given
    → b.backgrounding.in_background ≡ false
    → delete_for_path f fuel depth b given s ≡ some (returned tt err t)
    → DeletesLater f given err t
        (delete_for_path f fuel depth (delete_background context (some callback) b) given s)
delete_background_agrees f fuel depth b context callback given s a fg e =
    let (r, e1, e2) = delete_returned f fuel depth b given s fg e in
    let bg = delete_background context (some callback) b in
    let shown =
      ap (unfix_for_namespace f.namespace.namespace) (fixed-path f fuel given s e1)
      ∙ unfix_for_namespace-fix_for_namespace f.namespace.namespace given a in
    let (event, ran, its_err, its_path, its_name) =
      delete_in_background-event f fuel depth bg r.0 given r.1 callback
        (unfold delete_background in refl) shown
        (delete_in_foreground-delete_background f fuel depth b context (some callback) r.0 r.1
          ∙ e2) in
    rw (delete_launched f fuel depth bg given s {r = r} (unfold delete_background in refl) e1)
      (refl, event, ran, its_err, its_path, its_name)
