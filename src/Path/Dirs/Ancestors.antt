-- ===== src/Path/Dirs/Ancestors.antt =====
-- The loop of MakeDirs (paths.go) visits the ancestors of a path, in order.
use curator_go.Base.{
  ℕ, zero, suc, ◌+◌, ◌≤◌, ◌≡◌, refl, sym, ◌∙◌, ap, ◌≢◌, Bool, Option, none, some, List, [], ◌∷◌,
  ◌++◌, arith, if◌then◌else◌, length, All, length-append, take-append, append_assoc, append-nil,
  Bool-cases, inl, inr, Bytes,
}
use curator_go.Errors.{Err}
use curator_go.Zk.{Conn, AclProvider}
use curator_go.Path.{slash}
use curator_go.Path.Names.{NoSlash}
use curator_go.Path.Validate.{validate_path}
use curator_go.Path.Dirs.{ensure_node, round_end, make_dirs_from, make_dirs}
use curator_go.Path.Dirs.SubPaths.{
  round_end-middle, round_end-last, round_end-full, round_end-first,
}

-- A node name: not empty, and free of separators.
abbrev pub IsName : Bytes → Type 0
IsName n = NoSlash n × (n ≢ [])

-- The path with these node names.
unfoldable pub render : List Bytes → Bytes
render [] = []
render (n ∷ ns) = slash ∷ n ++ render ns

-- The paths of the nodes named by `ns` below `base`, from the top; the last only if wanted.
unfoldable pub ancestors : Bytes → List Bytes → Bool → List Bytes
ancestors base [] make_last = []
ancestors base (n ∷ []) make_last = if make_last then (base ++ slash ∷ n) ∷ [] else []
ancestors base (n ∷ m ∷ ns) make_last =
    (base ++ slash ∷ n) ∷ ancestors (base ++ slash ∷ n) (m ∷ ns) make_last

-- Each node is looked up and created where it is missing, up to the first error.
unfoldable pub visit :
    {S A T : Type 0} → Conn S A T → Option (AclProvider A) → List Bytes → S → Option Err × S
visit conn provider [] s = (none, s)
visit conn provider (p ∷ ps) s =
    let (err, s') = ensure_node conn provider p s in
    elim err [ some e ↦ (some e, s') | none ↦ visit conn provider ps s' ]

module _ {S A T : Type 0} (conn : Conn S A T) (provider : Option (AclProvider A))
    (make_last : Bool) where
  -- One round that reaches the end of `sub`.
  loop-step :
      (fuel pos : ℕ) (sub r : Bytes) (s : S)
      → round_end (sub ++ r) make_last pos ≡ some (length sub)
      → make_dirs_from conn provider make_last (suc fuel) (sub ++ r) pos s ≡ (
          let (err, s') = ensure_node conn provider sub s in
          elim err [
            | some e ↦ some (some e, s')
            | none ↦ make_dirs_from conn provider make_last fuel (sub ++ r) (length sub) s'
          ])
  unfolding make_dirs_from
  loop-step fuel pos sub r s h = rw (h, make_dirs_from) (ap rest (take-append sub r))
    where
      rest : Bytes → Option (Option Err × S)
      rest q =
          let (err, s') = ensure_node conn provider q s in
          elim err [
            | some e ↦ some (some e, s')
            | none ↦ make_dirs_from conn provider make_last fuel (sub ++ r) (length sub) s'
          ]

  loop-done :
      (fuel pos : ℕ) (path : Bytes) (s : S)
      → round_end path make_last pos ≡ none
      → make_dirs_from conn provider make_last (suc fuel) path pos s ≡ some (none, s)
  unfolding make_dirs_from
  loop-done fuel pos path s h = rw (h, make_dirs_from)

  -- The last node, whose path no separator follows.
  loop-last :
      (fuel : ℕ) (base n : Bytes) (s : S)
      → NoSlash n
      → make_dirs_from conn provider make_last (suc (suc fuel)) (base ++ slash ∷ n) (length base) s
        ≡ some (visit conn provider (ancestors base (n ∷ []) make_last) s)
  unfolding ancestors visit
  loop-last fuel base n s h = elim (Bool-cases make_last) [
    | inl yes_last ↦
        ap (λ p. make_dirs_from conn provider make_last (suc (suc fuel)) p (length base) s)
          (sym (append-nil (base ++ slash ∷ n)))
        ∙ loop-step (suc fuel) (length base) (base ++ slash ∷ n) [] s
            (rw append-nil (round_end-last base n make_last h ∙ rw yes_last))
        ∙ rw yes_last (
            ground (
              arith,
              loop-done fuel (length (base ++ slash ∷ n)) ((base ++ slash ∷ n) ++ [])
                  (ensure_node conn provider (base ++ slash ∷ n) s).1
                  (rw append-nil (round_end-full (base ++ slash ∷ n) make_last)),
            ))
    | inr not_last ↦
        loop-done (suc fuel) (length base) (base ++ slash ∷ n) s
          (round_end-last base n make_last h ∙ rw not_last)
        ∙ rw not_last
  ]

  make_dirs_from-visit :
      (ns : List Bytes) (fuel : ℕ) (base n : Bytes) (s : S)
      → All IsName (n ∷ ns)
      → length ns + 2 ≤ fuel
      → make_dirs_from conn provider make_last fuel (base ++ render (n ∷ ns)) (length base) s
        ≡ some (visit conn provider (ancestors base (n ∷ ns) make_last) s)
  unfolding render ancestors visit
  make_dirs_from-visit ns zero base n s h f = absurd (omega arith)
  make_dirs_from-visit [] (suc zero) base n s h f = absurd (omega arith)
  make_dirs_from-visit [] (suc (suc fuel)) base n s h f =
      rw append-nil (loop-last fuel base n s h.0.0)
  make_dirs_from-visit (m ∷ ns) (suc fuel) base n s h f =
      ap (λ p. make_dirs_from conn provider make_last (suc fuel) p (length base) s)
        (sym (append_assoc base (slash ∷ n) (render (m ∷ ns))))
      ∙ loop-step fuel (length base) (base ++ slash ∷ n) (render (m ∷ ns)) s (
          rw (append_assoc base (slash ∷ n) (render (m ∷ ns)))
            (round_end-middle base n (m ++ render ns) make_last h.0.0))
      ∙ ground (
        arith,
        make_dirs_from-visit ns fuel (base ++ slash ∷ n) m
            (ensure_node conn provider (base ++ slash ∷ n) s).1 h.1 (omega arith),
      )

  length-render : (ns : List Bytes) → All IsName ns → length ns ≤ length (render ns)
  unfolding render
  length-render [] h = omega arith
  length-render (n ∷ ns) h = omega (arith, length-append n (render ns), length-render ns h.1)

  loop-first :
      (fuel : ℕ) (path : Bytes) (s : S)
      → round_end path make_last 1 ≡ round_end path make_last 0
      → make_dirs_from conn provider make_last (suc fuel) path 1 s
        ≡ make_dirs_from conn provider make_last (suc fuel) path 0 s
  unfolding make_dirs_from
  loop-first fuel path s h = rw (h, make_dirs_from)

  enough_fuel :
      (c : ℕ) (n : Bytes) (ns : List Bytes)
      → All IsName ns
      → length ns + 2 ≤ suc (length (render ((c ∷ n) ∷ ns)))
  unfolding render
  enough_fuel c n ns h = omega (arith, length-append n (render ns), length-render ns h)

  first_end :
      (c : ℕ) (n : Bytes) (ns : List Bytes)
      → c ≢ slash
      → round_end (render ((c ∷ n) ∷ ns)) make_last 1
        ≡ round_end (render ((c ∷ n) ∷ ns)) make_last 0
  unfolding render
  first_end c n ns h = round_end-first c (n ++ render ns) make_last h

  -- MakeDirs on a valid path looks up the nodes above it in order, from the top, creates those
  -- that are missing and stops at the first error; the node itself comes last, and only if it is
  -- wanted. The fuel suffices.
  pub make_dirs-visit :
      (n : Bytes) (ns : List Bytes) (s : S)
      → All IsName (n ∷ ns)
      → validate_path (render (n ∷ ns)) ≡ none
      → make_dirs conn (render (n ∷ ns)) make_last provider s
        ≡ some (visit conn provider (ancestors [] (n ∷ ns) make_last) s)
  unfolding make_dirs
  make_dirs-visit [] ns s h v = absurd (h.0.1 refl)
  make_dirs-visit (c ∷ n) ns s h v =
      rw (v, make_dirs)
        (loop-first (length (render ((c ∷ n) ∷ ns))) (render ((c ∷ n) ∷ ns)) s
            (first_end c n ns h.0.0.0)
          ∙ make_dirs_from-visit ns (suc (length (render ((c ∷ n) ∷ ns)))) [] (c ∷ n) s h
              (enough_fuel c n ns h.1))
