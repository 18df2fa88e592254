-- ===== src/Builders/Exists/Answers.antt =====
-- A request whether a node exists (exists.go): its error for a missing node.
use curator_go.Base.{
  ℕ, ◌≡◌, ◌≢◌, sym, ◌∙◌, Option, none, some, arith, Option-cases, Bool-cases, inl, inr, Bytes,
}
use curator_go.Errors.{Err, zk, no_node}
use curator_go.Framework.{Framework, Session, Event, EventType, Watching, is_watching}
use curator_go.Framework.Loops.{retried_keeps}
use curator_go.Builders.Exists.{
  ExistsBuilder, look_up, exists_attempt, exists_in_foreground, exists_in_background,
}

-- What is assumed of the connection: Exists and ExistsW report a missing node by their first
-- result and not by ErrNoNode, and asking for the connection does not raise that error.
pub record AnswersMissing {S A T : Type 0} (f : Framework S A T) : Type 0 where
  pub exists : (path : Bytes) (s : S) → (f.conn.exists path s).0.2 ≢ some (zk no_node)
  pub exists_w : (path : Bytes) (s : S) → (f.conn.exists_w path s).0.3 ≢ some (zk no_node)
  pub connect : (s : S) → (f.connect s).0 ≢ some (zk no_node)

module _ {S A T : Type 0} (f : Framework S A T) (law : AnswersMissing f) where
  look_up-answers :
      (w : Watching) (path : Bytes) (s : S) → (look_up f w path s).0.2 ≢ some (zk no_node)
  unfolding look_up
  look_up-answers w path s e = elim (Bool-cases (is_watching w)) [
    | inl is_on ↦ law.exists_w path s (ground arith)
    | inr is_off ↦ law.exists path s (ground arith)
  ]

  exists_attempt-answers :
      (b : ExistsBuilder) (path : Bytes) (s : S)
      → (exists_attempt f b path s).0.1 ≢ some (zk no_node)
  unfolding exists_attempt
  exists_attempt-answers b path s e =
      let (found, stat, err) = (look_up f b.watching path s).0 in
      elim (Option-cases (look_up f b.watching path s).0.2) [
        | inl fine ↦ elim (Bool-cases found) [
          | inl is_there ↦ ground arith
          | inr missing ↦ ground arith
        ]
        | inr (e', failed) ↦ look_up-answers b.watching path s (ground arith)
      ]

  pub exists_in_foreground-answers :
      (fuel : ℕ) (b : ExistsBuilder) (path : Bytes) (s : Session S) {r : Option T × Option Err}
      {t : Session S}
      → exists_in_foreground f fuel b path s ≡ some (r, t)
      → r.1 ≢ some (zk no_node)
  unfolding exists_in_foreground
  exists_in_foreground-answers fuel b path s {r} {t} e =
      (retried_keeps f none (exists_attempt f b path) (λ u. Unit {0})
        (λ (r : Option T × Option Err). r.1 ≢ some (zk no_node)) (λ u k. tt)
        (λ u e k lost same. law.connect u (lost ∙ same))
        (λ u k. (exists_attempt-answers b path u, tt)) fuel s {r = r} {t = t} tt e).0

  -- The event of a request in the background.
  pub exists_in_background-answers :
      (fuel : ℕ) (b : ExistsBuilder) (path : Bytes) (s : Session S) {event : Event A T}
      {t : Session S}
      → exists_in_background f fuel b path s ≡ some (some event, t)
      → (event.event_type ≡ EventType.exists) × (event.err ≢ some (zk no_node))
  unfolding exists_in_background
  exists_in_background-answers fuel b path s {event} {t} e =
      elim (Option-cases (exists_in_foreground f fuel b path s)) [
        | inl none_left ↦ ground arith
        | inr (done, ends) ↦ elim (Option-cases (b.backgrounding.callback)) [
          | inl no_callback ↦ ground arith
          | inr (callback, given) ↦
              let answers =
                exists_in_foreground-answers fuel b path s {r = done.0} {t = done.1} ends in
              let kind : event.event_type ≡ EventType.exists = ground arith in
              let same : event.err ≡ done.0.1 = ground arith in
              (kind, λ missing. answers (sym same ∙ missing))
        ]
      ]
