-- ===== src/Session/Backlog.antt =====
-- The errors of the session's background work (state.go): what the next calls of Conn report.
use curator_go.Base.{
  ℕ, zero, suc, ◌+◌, ◌-◌, ◌≤◌, ◌≡◌, refl, sym, ap, ◌∙◌, Option, some, List, [], ◌∷◌, ◌++◌, map,
  arith, length, length-append, append-nil, append_assoc, drop, ltb, Bool-cases, inl, inr,
}
use curator_go.Errors.{Err}
use curator_go.Handle.{Outside, drop_background_error, background_exceptions}
use curator_go.Session.Runs.{length-queue_error}
use curator_go.Session.{
  Connection, max_background_errors, queue_error, queue_background_exception,
  deque_background_exception, conn_after, conn,
}

-- The last ten of a list.
abbrev pub last_ten : List Err → List Err
last_ten l = drop (length l - max_background_errors) l

length-drop : (n : ℕ) (l : List Err) → length (drop n l) ≡ length l - n
length-drop zero l = omega arith
length-drop (suc n) [] = omega arith
length-drop (suc n) (x ∷ l) = omega (arith, length-drop n l)

drop-append_more : (n : ℕ) (l m : List Err) → n ≤ length l → drop n (l ++ m) ≡ drop n l ++ m
drop-append_more zero l m h = refl
drop-append_more (suc n) [] m h = absurd (omega (arith, h))
drop-append_more (suc n) (x ∷ l) m h = drop-append_more n l m (omega arith)

drop_as : (m n : ℕ) (l : List Err) → m ≡ n → drop m l ≡ drop n l
drop_as m n l e = rw e refl

drop_nil : (n : ℕ) → drop {A = Err} n [] ≡ []
drop_nil zero = refl
drop_nil (suc n) = refl

drop-drop : (m n : ℕ) (l : List Err) → drop m (drop n l) ≡ drop (n + m) l
drop-drop m zero l = drop_as m (0 + m) l (omega arith)
drop-drop zero (suc n) [] = sym (drop_nil (suc n + 0))
drop-drop (suc m) (suc n) [] = sym (drop_nil (suc n + suc m))
drop-drop m (suc n) (x ∷ l) =
    drop-drop m n l ∙ drop_as (suc (n + m)) (suc n + m) (x ∷ l) (omega arith)

last_ten-cons :
    (x : Err) (l : List Err) → max_background_errors ≤ length l → last_ten (x ∷ l) ≡ last_ten l
last_ten-cons x l h =
    drop_as (suc (length l) - max_background_errors) (suc (length l - max_background_errors))
      (x ∷ l) (omega arith)

last_ten_all : (l : List Err) → length l ≤ max_background_errors → last_ten l ≡ l
last_ten_all l h = drop_as (length l - max_background_errors) 0 l (omega arith)

last_ten-append : (l m : List Err) → last_ten (last_ten l ++ m) ≡ last_ten (l ++ m)
last_ten-append l m =
    let n = length l - max_background_errors in
    let k = length (drop n l ++ m) - max_background_errors in
    let moved : drop n l ++ m ≡ drop n (l ++ m) = sym (drop-append_more n l m (omega arith)) in
    let size : length (drop n l ++ m) ≡ length l - n + length m =
      omega (arith, length-append (drop n l) m, length-drop n l) in
    let whole = length-append l m in
    ap (drop k) moved
    ∙ drop-drop k n (l ++ m)
    ∙ drop_as (n + k) (length (l ++ m) - max_background_errors) (l ++ m)
        (omega (arith, size, whole))

module _ {S : Type 0} (o : Outside S) where
  -- A sequence of errors of the background work.
  pub queue_all : List Err → Connection → S → Connection × S
  queue_all [] c s = (c, s)
  queue_all (e ∷ rest) c s =
      let (c1, s1) = queue_background_exception o e c s in queue_all rest c1 s1

  -- The errors that some calls of Conn in a row return.
  pub conn_errors : ℕ → Connection → S → List (Option Err)
  conn_errors zero c s = []
  conn_errors (suc n) c s = let (got, c1, s1) = conn o c s in got.1 ∷ conn_errors n c1 s1

  queue_error-last_ten :
      (e : Err) (errors : List Err) (s : S)
      → (queue_error o e errors s).0 ≡ last_ten (errors ++ e ∷ [])
  unfolding queue_error
  queue_error-last_ten e [] s = refl
  queue_error-last_ten e (x ∷ rest) s =
      let l = rest ++ e ∷ [] in
      let size = length-append rest (e ∷ []) in
      elim (Bool-cases (ltb (length (x ∷ rest)) max_background_errors)) [
        | inl room ↦ ground (arith, last_ten_all (x ∷ l))
        | inr full ↦ ground (
          arith,
          last_ten-cons x l,
          queue_error-last_ten e rest (o.add_count drop_background_error s),
        )
      ]

  queue_all-last_ten :
      (es : List Err) (c : Connection) (s : S)
      → length c.background_errors ≤ max_background_errors
      → (queue_all es c s).0.background_errors ≡ last_ten (c.background_errors ++ es)
  unfolding queue_all queue_background_exception
  queue_all-last_ten [] c s h =
      ground (arith, append-nil c.background_errors, last_ten_all c.background_errors)
  queue_all-last_ten (e ∷ rest) c s h =
      let (c1, s1) = queue_background_exception o e c s in
      let queued = queue_error-last_ten e c.background_errors s in
      let same = append_assoc c.background_errors (e ∷ []) rest in
      let l = c.background_errors ++ e ∷ [] in
      queue_all-last_ten rest c1 s1 (length-queue_error o e c.background_errors s)
      ∙ ap (λ q. last_ten (q ++ rest)) queued
      ∙ last_ten-append l rest
      ∙ ap last_ten same

  conn_errors-backlog :
      (l : List Err) (c : Connection) (s : S)
      → c.background_errors ≡ l
      → conn_errors (length l) c s ≡ map some l
  unfolding conn_errors conn conn_after deque_background_exception
  conn_errors-backlog [] c s e = refl
  conn_errors-backlog (x ∷ l) c s e = ground (
    arith,
    conn_errors-backlog l (record c { background_errors = l }) (o.add_count background_exceptions s)
        refl,
  )

  -- Background errors are reported by Conn, one a call, in the order in which they came: after any
  -- number of them came to a session, and at most ten waited before, the next calls of Conn, as
  -- many as errors are kept, return the last ten of them all, the oldest of these first.
  pub conn_errors-queue_all :
      (es : List Err) (c : Connection) (s : S)
      → length c.background_errors ≤ max_background_errors
      → let (c1, s1) = queue_all es c s in
        let kept = last_ten (c.background_errors ++ es) in
        conn_errors (length kept) c1 s1 ≡ map some kept
  conn_errors-queue_all es c s h =
      let (c1, s1) = queue_all es c s in
      conn_errors-backlog (last_ten (c.background_errors ++ es)) c1 s1 (queue_all-last_ten es c s h)
