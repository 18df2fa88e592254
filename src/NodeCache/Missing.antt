-- ===== src/NodeCache/Missing.antt =====
-- A node cache (recipes/cache.go) and the request whether its node exists (exists.go), whose
-- answers it gets.
use curator_go.Base.{
  ℕ, ◌≡◌, ◌≢◌, refl, ap, ◌∙◌, true, false, some, List, [], ◌∷◌, arith, Option-cases, Bool-cases,
  inl, inr, Bytes,
}
use curator_go.Errors.{Err, zk, no_node, is_no_node}
use curator_go.Framework.{Framework, Session, Event, EventType}
use curator_go.Builders.Exists.{ExistsBuilder, exists_in_background}
use curator_go.Builders.Exists.Answers.{AnswersMissing, exists_in_background-answers}
use curator_go.NodeCache.{
  CacheClient, NodeCache, ChildData, deep_equal, set_new_data, answered, failed,
  process_background_result,
}

-- The cache has data.
abbrev pub Cached : {T : Type 0} → NodeCache T → Type 0
Cached {T} c = (d : ChildData T) × (c.child_data ≡ some d)

is_no_node_eq : (e : Err) → is_no_node e ≡ true → e ≡ zk no_node
is_no_node_eq e h =
    elim e as (λ e. is_no_node e ≡ true → e ≡ zk no_node) [
      | zk z ↦ elim z as (λ z. is_no_node (zk z) ≡ true → zk z ≡ zk no_node) [
        | no_node ↦ λ h. refl
        | _ ↦ λ h. absurd cc
      ]
      | _ ↦ λ h. absurd cc
    ]
      h

module _ {S T : Type 0} (n : CacheClient S T) where
  set_new_data-Cached :
      (d : ChildData T) (c : NodeCache T) (s : S) → Cached (set_new_data n (some d) c s).0
  unfolding set_new_data
  set_new_data-Cached d c s = elim (Bool-cases (deep_equal n c.child_data (some d))) [
    | inl same ↦ (d, ground arith)
    | inr other ↦ (d, ground arith)
  ]

  answered-Cached :
      {A : Type 0} (event : Event A T) (kind : EventType) (c : NodeCache T) (s : S)
      → Cached c
      → Cached (answered n event kind c s).0
  unfolding answered
  answered-Cached event EventType.get_data c s h =
      set_new_data-Cached (record { stat = event.stat; payload = event.payload }) c s
  answered-Cached event EventType.exists c s h = h
  answered-Cached event EventType.create c s h = h
  answered-Cached event EventType.delete c s h = h
  answered-Cached event EventType.set_data c s h = h
  answered-Cached event EventType.children c s h = h
  answered-Cached event EventType.sync c s h = h
  answered-Cached event EventType.get_acl c s h = h
  answered-Cached event EventType.set_acl c s h = h
  answered-Cached event EventType.watched c s h = h
  answered-Cached event EventType.closing c s h = h

  failed-Cached :
      (e : Err) (kind : EventType) (c : NodeCache T) (s : S)
      → (kind ≡ EventType.exists → is_no_node e ≡ false)
      → Cached c
      → Cached (failed n e kind c s).0
  unfolding failed
  failed-Cached e EventType.exists c s k (d, h) = (d, ground (arith, k refl))
  failed-Cached e EventType.get_data c s k h = h
  failed-Cached e EventType.create c s k h = h
  failed-Cached e EventType.delete c s k h = h
  failed-Cached e EventType.set_data c s k h = h
  failed-Cached e EventType.children c s k h = h
  failed-Cached e EventType.sync c s k h = h
  failed-Cached e EventType.get_acl c s k h = h
  failed-Cached e EventType.set_acl c s k h = h
  failed-Cached e EventType.watched c s k h = h
  failed-Cached e EventType.closing c s k h = h

  process-Cached :
      {A : Type 0} (event : Event A T) (c : NodeCache T) (s : S)
      → (event.event_type ≡ EventType.exists → event.err ≢ some (zk no_node))
      → Cached c
      → Cached (process_background_result n event c s).0
  unfolding process_background_result
  process-Cached event c s k h = elim (Option-cases event.err) [
    | inl fine ↦ rw (fine, process_background_result) (answered-Cached event event.event_type c s h)
    | inr (e, bad) ↦
        rw (bad, process_background_result) (failed-Cached e event.event_type c s (answers e bad) h)
  ]
    where
      answers :
          (e : Err)
          → event.err ≡ some e
          → event.event_type ≡ EventType.exists
          → is_no_node e ≡ false
      answers e bad asked = elim (Bool-cases (is_no_node e)) [
        | inl missing ↦ absurd (k asked (bad ∙ ap some (is_no_node_eq e missing)))
        | inr is_other ↦ is_other
      ]

  -- The events that reach the callback: the answers to CheckExists, and those to GetData.
  pub data Answer {A : Type 0} (f : Framework S A T) (event : Event A T) : Type 0 where
    existed :
        (fuel : ℕ) (b : ExistsBuilder) (path : Bytes) (s t : Session S)
        → exists_in_background f fuel b path s ≡ some (some event, t)
        → Answer f event
    got : event.event_type ≡ EventType.get_data → Answer f event

  abbrev pub Answers : {A : Type 0} → Framework S A T → List (Event A T) → Type 0
  Answers f [] = Unit
  Answers f (event ∷ rest) = Answer f event × Answers f rest

  pub processes : {A : Type 0} → List (Event A T) → NodeCache T → S → NodeCache T × S
  processes [] c s = (c, s)
  processes (event ∷ rest) c s =
      let (c1, s1) = process_background_result n event c s in processes rest c1 s1

  Answer-exists :
      {A : Type 0} (f : Framework S A T) (event : Event A T)
      → AnswersMissing f
      → Answer f event
      → event.event_type ≡ EventType.exists
      → event.err ≢ some (zk no_node)
  Answer-exists f event law (existed fuel b path s t e) asked missing =
      (exists_in_background-answers f law fuel b path s e).1 missing
  Answer-exists f event law (got is_data) asked missing = absurd cc

  -- Where a connection reports a missing node by the result of Exists and not by ErrNoNode, a cache
  -- that has data never loses them: whatever answers to its requests reach it, in whatever order,
  -- with errors or without, it still has data, also if its node has been deleted.
  pub processes-Cached :
      {A : Type 0} (f : Framework S A T) (events : List (Event A T)) (c : NodeCache T) (s : S)
      → AnswersMissing f
      → Answers f events
      → Cached c
      → Cached (processes events c s).0
  unfolding processes
  processes-Cached f [] c s law answers h = h
  processes-Cached f (event ∷ rest) c s law (answer, answers) h =
      let (c1, s1) = process_background_result n event c s in
      processes-Cached f rest c1 s1 law answers
        (process-Cached event c s (Answer-exists f event law answer) h)
