-- ===== src/Builders/Create/Modes.antt =====
-- A create request (create.go) in the foreground and in the background.
use curator_go.Base.{
  ℕ, ◌≡◌, refl, ap, true, Option, none, some, Bool-cases, inl, inr, Bytes, if◌then◌else◌,
}
use curator_go.Errors.{Err}
use curator_go.Zk.{Slice}
use curator_go.Path.{get_node_from_path}
use curator_go.Namespace.{fix_for_namespace, unfix_for_namespace}
use curator_go.Framework.{Framework, Session, Event, Call, returned, launched}
use curator_go.Builders.Create.{CreateBuilder}

-- What a request in the background is worth, compared with the error `err`, the path `path` and
-- the session `t` of the same request in the foreground: the goroutine ends in that session, and
-- gives the callback that error and a path whose namespace is still to be taken off.
abbrev pub CreatesLater :
    {S A T : Type 0}
    → Framework S A T
    → Option Err
    → Bytes
    → Bytes
    → Session S
    → Option (Call S A T Bytes)
    → Type 0
CreatesLater f err path given t none = ⊥
CreatesLater f err path given t (some (returned p e s1)) = ⊥
CreatesLater {A} {T} f err path given t (some (launched p e task s1)) =
    (e ≡ none)
    × (p
        ≡ unfix_for_namespace f.namespace.namespace (fix_for_namespace f.namespace.namespace given))
    × (event : Event A T) × (task s1 ≡ some (some event, t))
    × (event.err ≡ err)
    × (err ≡ none → unfix_for_namespace f.namespace.namespace event.path ≡ path)
    × (event.name ≡ get_node_from_path event.path)

-- What is sent in place of the data.
packed :
    {S A T : Type 0} (f : Framework S A T) (b : CreateBuilder A) (given : Bytes) (payload : Slice ℕ)
    → (b.compress ≡ true → (f.compress given payload).1 ≡ none)
    → (x : Slice ℕ) × ((if b.compress then f.compress given payload else (payload, none))
        ≡ (x, none))
packed f b given payload packs = elim (Bool-cases b.compress) [
  | inl packing ↦ (
    (f.compress given payload).0,
    rw packing (ap (λ e. ((f.compress given payload).0, e)) (packs packing)),
  )
  | inr plain ↦ (payload, rw plain refl)
]
