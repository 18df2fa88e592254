-- ===== src/Path/Dirs/Endings.antt =====
-- DeleteChildren (paths.go) ends.
use curator_go.Base.{
  ℕ, zero, suc, ◌+◌, length, take, ◌<◌, ◌≤◌, ◌≡◌, refl, inl, inr, Bool, true, Option, none, some,
  List, [], ◌∷◌, arith, All, Bytes, Option-cases, Bool-cases, if◌then◌else◌, Returns,
}
use curator_go.Errors.{Err, is_not_empty, is_no_node}
use curator_go.Zk.{Conn, AclProvider, elements, any_version}
use curator_go.Path.{join_path}
use curator_go.Path.Validate.{validate_path}
use curator_go.Path.Dirs.{
  delete_each, delete_self, delete_node, delete_children, next_pos, round_end, ensure_node,
  make_dirs_from, make_dirs,
}

-- What is assumed of the server: each child that it lists has a smaller rank than its parent (the
-- height of the tree, where that is finite), and `late` bounds how often a deletion is still refused
-- since the node has children again, which is each time that another client made one after the
-- listing.
pub record IsSettling {S A T : Type 0} (conn : Conn S A T) (rank : Bytes → ℕ) (late : S → ℕ)
    : Type 0 where
  pub listed :
      (p : Bytes) (s : S)
      → All (λ c. rank (join_path p (c ∷ [])) < rank p) (elements (conn.children p s).0.0)
  pub reads : (p : Bytes) (s : S) → late (conn.children p s).1 ≤ late s
  pub deletes : (p : Bytes) (s : S) → late (conn.delete p any_version s).1 ≤ late s
  pub refuses :
      (p : Bytes) (s : S) (e : Err)
      → (conn.delete p any_version s).0 ≡ some e
      → is_not_empty e ≡ true
      → late (conn.delete p any_version s).1 < late s

module _ {S A T : Type 0} (conn : Conn S A T) (rank : Bytes → ℕ) (late : S → ℕ) where
  -- The call returns, and no more refusals are to come than `k`.
  abbrev Ends : ℕ → Option (Option Err × S) → Type 0
  Ends k none = ⊥
  Ends k (some r) = late r.1 ≤ k

  Ends-Returns : (k : ℕ) (o : Option (Option Err × S)) → Ends k o → Returns o
  Ends-Returns k none h = absurd h
  Ends-Returns k (some r) h = tt

  Ends-mono : (j k : ℕ) (o : Option (Option Err × S)) → j ≤ k → Ends j o → Ends k o
  Ends-mono j k none less h = h
  Ends-mono j k (some r) less h = omega arith

  next_Ends :
      (k : ℕ) (o : Option (Option Err × S)) (f : S → Option (Option Err × S))
      → Ends k o
      → ((s : S) → late s ≤ k → Ends k (f s))
      → Ends k
          (elim o [ none ↦ none | some (some e, s') ↦ some (some e, s') | some (none, s') ↦ f s' ])
  next_Ends k none f h c = h
  next_Ends k (some (some e, s')) f h c = h
  next_Ends k (some (none, s')) f h c = c s' h

  delete_each-Ends :
      (k : ℕ) (call : Bytes → S → Option (Option Err × S)) (p : Bytes) (names : List Bytes) (s : S)
      → ((q : Bytes) (t : S) → rank q < rank p → late t ≤ k → Ends k (call q t))
      → All (λ c. rank (join_path p (c ∷ [])) < rank p) names
      → late s ≤ k
      → Ends k (delete_each conn call p names s)
  unfolding delete_each
  delete_each-Ends k call p [] s ends h b = b
  delete_each-Ends k call p (c ∷ names) s ends (less, h) b =
      next_Ends k (call (join_path p (c ∷ [])) s) (λ t. delete_each conn call p names t)
        (ends _ s less b) (λ t. delete_each-Ends k call p names t ends h)

  module _ (law : IsSettling conn rank late) where
    delete_self-Ends :
        (k : ℕ) (call : Bytes → S → Option (Option Err × S)) (p : Bytes) (s : S)
        → ((t : S) → late t < k → Ends k (call p t))
        → late s ≤ k
        → Ends k (delete_self conn call p s)
    unfolding delete_self
    delete_self-Ends k call p s again b =
        ends (conn.delete p any_version s).0 (conn.delete p any_version s).1 (law.refuses p s)
          (omega (arith, law.deletes p s))
      where
        ends :
            (err : Option Err) (t : S)
            → ((e : Err) → err ≡ some e → is_not_empty e ≡ true → late t < late s)
            → late t ≤ k
            → Ends k (elim err [
              | none ↦ some (none, t)
              | some e ↦
                  if is_not_empty e
                  then call p t
                  else (if is_no_node e then some (none, t) else some (some e, t))
            ])
        ends none t h c = c
        ends (some e) t h c = elim (Bool-cases (is_not_empty e)) [
          | inl more ↦ rw more (again t (omega (arith, h e refl more)))
          | inr less ↦ elim (Bool-cases (is_no_node e)) [
            | inl gone ↦ rw less (rw gone c)
            | inr left ↦ rw less (rw left c)
          ]
        ]

    delete_node-Ends :
        (k : ℕ) (call : Bytes → S → Option (Option Err × S)) (p : Bytes) (self : Bool) (s : S)
        → ((q : Bytes) (t : S) → rank q < rank p → late t ≤ k → Ends k (call q t))
        → ((t : S) → late t < k → Ends k (call p t))
        → late s ≤ k
        → Ends k (delete_node conn call p self s)
    unfolding delete_node
    delete_node-Ends k call p self s below again b =
        found (conn.children p s).0.2 (elements (conn.children p s).0.0) (conn.children p s).1
          (law.listed p s) (omega (arith, law.reads p s))
      where
        whole :
            (t : S)
            → late t ≤ k
            → Ends k (if self then delete_self conn call p t else some (none, t))
        whole t c = elim (Bool-cases self) [
          | inl own ↦ rw own (delete_self-Ends k call p t again c)
          | inr kept ↦ rw kept c
        ]

        found :
            (err : Option Err) (names : List Bytes) (t : S)
            → All (λ c. rank (join_path p (c ∷ [])) < rank p) names
            → late t ≤ k
            → Ends k (elim err [
              | some e ↦ some (some e, t)
              | none ↦ elim (delete_each conn call p names t) [
                | none ↦ none
                | some (some e, s2) ↦ some (some e, s2)
                | some (none, s2) ↦ if self then delete_self conn call p s2 else some (none, s2)
              ]
            ])
        found (some e) names t h c = c
        found none names t h c =
            next_Ends k (delete_each conn call p names t)
              (λ s2. if self then delete_self conn call p s2 else some (none, s2))
              (delete_each-Ends k call p names t below h c) whole

    delete_children-Ends :
        (fuel : ℕ) (p : Bytes) (self : Bool) (s : S)
        → rank p + late s < fuel
        → Ends (late s) (delete_children conn fuel p self s)
    unfolding delete_children
    delete_children-Ends zero p self s h = elim h [ ]
    delete_children-Ends (suc fuel) p self s h = elim (Option-cases (validate_path p)) [
      | inr (e, bad) ↦ rw (bad, delete_children) (omega arith)
      | inl valid ↦
          let calls : (q : Bytes) (t : S)
              → late t ≤ late s
              → rank q + late t < fuel
              → Ends (late s) (delete_children conn fuel q true t) =
            λ q t less enough.
              Ends-mono (late t) (late s) (delete_children conn fuel q true t) less
                (delete_children-Ends fuel q true t enough) in
          rw (valid, delete_children)
            (delete_node-Ends (late s) (λ q t. delete_children conn fuel q true t) p self s
              (λ q t lower less. calls q t less (omega (arith, lower, less)))
              (λ t less. calls p t (omega (arith, less)) (omega (arith, less))) (omega arith))
    ]

    -- DeleteChildren ends, with or without an error, where the tree that the server lists has
    -- finite height and deletions are refused only so often since other clients make children
    -- meanwhile: fuel above the sum of the rank of the path and the number of those refusals
    -- suffices.
    pub delete_children-Returns :
        (fuel : ℕ) (p : Bytes) (self : Bool) (s : S)
        → rank p + late s < fuel
        → Returns (delete_children conn fuel p self s)
    delete_children-Returns fuel p self s h =
        Ends-Returns (late s) (delete_children conn fuel p self s)
          (delete_children-Ends fuel p self s h)

round_end-grows :
    (path : Bytes) (make_last : Bool) (pos next : ℕ)
    → round_end path make_last pos ≡ some next
    → (pos < next) × (pos < length path)
unfolding round_end next_pos
round_end-grows path make_last pos next e = ground arith

module _ {S A T : Type 0} (conn : Conn S A T) (provider : Option (AclProvider A))
    (make_last : Bool) where
  make_dirs_from-Returns :
      (fuel : ℕ) (path : Bytes) (pos : ℕ) (s : S)
      → 0 < fuel
      → length path < fuel + pos
      → Returns (make_dirs_from conn provider make_last fuel path pos s)
  unfolding make_dirs_from
  make_dirs_from-Returns zero path pos s h f = elim h [ ]
  make_dirs_from-Returns (suc fuel) path pos s h f =
      elim (Option-cases (round_end path make_last pos)) [
        | inl done ↦ rw (done, make_dirs_from) tt
        | inr (next, e) ↦
            let (grows, inside) = round_end-grows path make_last pos next e in
            let made = ensure_node conn provider (take next path) s in
            elim (Option-cases made.0) [
              | inl fine ↦
                  rw (e, make_dirs_from)
                    (rw (fine, make_dirs_from)
                      (make_dirs_from-Returns fuel path next made.1 (omega arith) (omega arith)))
              | inr (err, bad) ↦ rw (e, make_dirs_from) (rw (bad, make_dirs_from) tt)
            ]
      ]

  -- MakeDirs ends for every path and every server: its loop makes at most one round for each
  -- byte of the path.
  pub make_dirs-Returns :
      (path : Bytes) (s : S) → Returns (make_dirs conn path make_last provider s)
  unfolding make_dirs
  make_dirs-Returns path s = elim (Option-cases (validate_path path)) [
    | inl valid ↦
        rw (valid, make_dirs)
          (make_dirs_from-Returns (suc (length path)) path 1 s (omega arith) (omega arith))
    | inr (e, bad) ↦ rw (bad, make_dirs) tt
  ]
