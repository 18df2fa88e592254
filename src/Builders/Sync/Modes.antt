-- ===== src/Builders/Sync/Modes.antt =====
-- A sync request (sync.go) in the foreground and in the background.
use curator_go.Base.{
  ℕ, ◌≡◌, refl, if-true, true, false, Option, none, some, arith, Option-cases, inl, inr, Bytes,
}
use curator_go.Errors.{Err}
use curator_go.Path.{get_node_from_path}
use curator_go.Namespace.{unfix_for_namespace}
use curator_go.Framework.{
  Framework, Session, Event, EventType, blank, Call, returned, launched, fixed, deliver,
  path_or_given,
}
use curator_go.Builders.Sync.{
  SyncBuilder, sync_in_foreground, sync_in_background, sync_for_path, sync_background,
}

-- What a request in the background does, compared with the path, the error and the session of the
-- same request in the foreground: the path of the event has lost the namespace once more.
abbrev pub SyncsLater :
    {S A T : Type 0}
    → Framework S A T
    → Bytes
    → Option Err
    → Bytes
    → Session S
    → Option (Call S A T Bytes)
    → Type 0
SyncsLater f given err path t none = ⊥
SyncsLater f given err path t (some (returned p e s1)) = ⊥
SyncsLater {A} {T} f given err path t (some (launched p e task s1)) =
    (e ≡ none)
    × (p ≡ given)
    × (event : Event A T) × (task s1 ≡ some (some event, t))
    × (event.err ≡ err)
    × (event.path ≡ path_or_given err (unfix_for_namespace f.namespace.namespace path) given)
    × (event.name ≡ get_node_from_path event.path)

sync_launched :
    {S A T : Type 0} (f : Framework S A T) (fuel : ℕ) (b : SyncBuilder) (given : Bytes)
    (s : Session S) {r : Bytes × Session S}
    → b.backgrounding.in_background ≡ true
    → fixed f fuel given s ≡ some r
    → sync_for_path f fuel b given s
      ≡ some (launched given none (sync_in_background f fuel b r.0 given) r.1)
unfolding sync_for_path
sync_launched f fuel b given s bg e = rw (e, sync_for_path) (if-true _ _ bg)

sync_returned :
    {S A T : Type 0} (f : Framework S A T) (fuel : ℕ) (b : SyncBuilder) (given : Bytes)
    (s : Session S) {path : Bytes} {err : Option Err} {t : Session S}
    → b.backgrounding.in_background ≡ false
    → sync_for_path f fuel b given s ≡ some (returned path err t)
    → (r : Bytes × Session S) × (fixed f fuel given s ≡ some r)
      × (sync_in_foreground f fuel r.0 r.1 ≡ some ((path, err), t))
unfolding sync_for_path
sync_returned f fuel b given s {path} {err} {t} fg e = elim (Option-cases (fixed f fuel given s)) [
  | inl out ↦ absurd (ground arith)
  | inr (r, e1) ↦ elim (Option-cases (sync_in_foreground f fuel r.0 r.1)) [
    | inl out ↦ absurd (ground arith)
    | inr (done, e2) ↦ (r, e1, ground arith)
  ]
]

sync_in_background-event :
    {S A T : Type 0} (f : Framework S A T) (fuel : ℕ) (b : SyncBuilder) (path given : Bytes)
    (s : Session S) (callback : ℕ) {done : (Bytes × Option Err) × Session S}
    → b.backgrounding.callback ≡ some callback
    → sync_in_foreground f fuel path s ≡ some done
    → (event : Event A T) × (sync_in_background f fuel b path given s ≡ some (some event, done.1))
      × (event.err ≡ done.0.1)
      × (event.path
          ≡ path_or_given done.0.1 (unfix_for_namespace f.namespace.namespace done.0.0) given)
      × (event.name ≡ get_node_from_path event.path)
unfolding sync_in_background deliver
sync_in_background-event {A} {T} f fuel b path given s callback {done} k e =
    let shown = path_or_given done.0.1 (unfix_for_namespace f.namespace.namespace done.0.0) given in
    let event : Event A T = record (blank EventType.sync done.0.1 shown b.backgrounding.context) {
      name = get_node_from_path shown;
    } in
    (event, ground arith, refl, refl, refl)

-- A sync request in the background, with a callback, leaves the session that the same request
-- leaves in the foreground and reports the same error; but on success the callback's event has the
-- path that the foreground returns with the namespace taken off a second time.
pub sync_background_agrees :
    {S A T : Type 0} (f : Framework S A T) (fuel : ℕ) (b : SyncBuilder) (context : Option ℕ)
    (callback : ℕ) (given : Bytes) (s : Session S) {path : Bytes} {err : Option Err} {t : Session S}
    → b.backgrounding.in_background ≡ false
    → sync_for_path f fuel b given s ≡ some (returned path err t)
    → SyncsLater f given err path t
        (sync_for_path f fuel (sync_background context (some callback) b) given s)
unfolding sync_background
sync_background_agrees f fuel b context callback given s fg e =
    let (r, e1, e2) = sync_returned f fuel b given s fg e in
    let bg = sync_background context (some callback) b in
    let (event, ran, its_err, its_path, its_name) =
      sync_in_background-event f fuel bg r.0 given r.1 callback refl e2 in
    rw (sync_launched f fuel bg given s {r = r} refl e1)
      (refl, refl, event, ran, its_err, its_path, its_name)
