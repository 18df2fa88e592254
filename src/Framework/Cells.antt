-- ===== src/Framework/Cells.antt =====
-- A variable that the attempts of a retry loop assign to, as the closures of the builders do with
-- the stat of a node (data.go, children.go, acl.go): it stands beside the server's state.
use curator_go.Base.{ℕ, Option, none, some}
use curator_go.Errors.{Err}
use curator_go.Retry.{Policy, World, new_retry_loop, call_with_retry}
use curator_go.Framework.{Framework, Session}

abbrev pub cell_world : {X S : Type 0} → World S → World (X × S)
cell_world w = record {
  since = λ start s. w.since start s.1;
  now = λ s. w.now s.1;
  add_count = λ c s. (s.0, w.add_count c s.1);
}

abbrev pub cell_policy : {X S : Type 0} → Policy S → Policy (X × S)
cell_policy policy count elapsed sleeper s =
    let (allowed, t) =
      policy count elapsed (λ time u. let (err, v) = sleeper time (s.0, u) in (err, v.1)) s.1 in
    (allowed, (s.0, t))

-- `if stat != nil { … }`: what the cell of the stat holds afterwards.
abbrev pub store_stat : {T : Type 0} → Option T → Option T → Option T
store_stat cell none = cell
store_stat cell (some stat) = some stat

module _ {S A T : Type 0} (f : Framework S A T) where
  unfoldable pub cell_conn :
      {X R : Type 0} → R → (X × S → (R × Option Err) × (X × S)) → X × S → (R × Option Err) × (X × S)
  cell_conn nothing attempt t =
      let (err, t1) = f.connect t.1 in
      elim err [ some e ↦ ((nothing, some e), (t.0, t1)) | none ↦ attempt (t.0, t1) ]

  -- CallWithRetry over attempts that assign to a cell.
  unfoldable pub retried_with :
      {X R : Type 0}
      → ℕ
      → R
      → X
      → (X × S → (R × Option Err) × (X × S))
      → Session S
      → Option ((R × Option Err) × X × Session S)
  retried_with {R} fuel nothing cell attempt s =
      elim (call_with_retry (cell_world f.world) {R = R} fuel
        (new_retry_loop (cell_world f.world) (cell_policy f.retry_policy) (cell, s.server))
        (cell_conn nothing attempt) (cell, s.server)) [
          | none ↦ none
          | some (result, t) ↦ some (result, t.0, record s { server = t.1 })
        ]
