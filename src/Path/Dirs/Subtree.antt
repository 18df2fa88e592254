-- ===== src/Path/Dirs/Subtree.antt =====
-- DeleteChildren (paths.go) keeps to the subtree.
use curator_go.Base.{
  ℕ, zero, suc, ◌≡◌, refl, ◌⊎◌, inl, inr, Bool, true, Option, none, some, List, [], ◌∷◌, Bytes,
  Option-cases, Bool-cases, All, ◌≢◌, if◌then◌else◌,
}
use curator_go.Errors.{Err, is_not_empty, is_no_node}
use curator_go.Zk.{Conn, elements, any_version}
use curator_go.Path.{join_path}
use curator_go.Path.Names.{NoSlash}
use curator_go.Path.Validate.{validate_path}
use curator_go.Path.Dirs.{delete_each, delete_self, delete_node, delete_children}

-- A path that is reached from `root` by joining names to it.
pub data IsBelow (root : Bytes) : Bytes → Type 0 where
  here : IsBelow root root
  below : {p : Bytes} (child : Bytes) → IsBelow root p → IsBelow root (join_path p (child ∷ []))

-- What holds of the state that a call leaves, if it ends.
abbrev pub Leaves : {S : Type 0} → (S → Type 0) → Option (Option Err × S) → Type 0
Leaves P none = Unit
Leaves P (some r) = P r.1

-- Going on after a call that returned no error.
next_Leaves :
    {S : Type 0} (P : S → Type 0) (o : Option (Option Err × S)) (f : S → Option (Option Err × S))
    → Leaves P o
    → ((s : S) → P s → Leaves P (f s))
    → Leaves P
        (elim o [ none ↦ none | some (some e, s') ↦ some (some e, s') | some (none, s') ↦ f s' ])
next_Leaves P none f h k = tt
next_Leaves P (some (some e, s')) f h k = h
next_Leaves P (some (none, s')) f h k = k s' h

-- The name of a child, as a server lists it.
abbrev pub IsName : Bytes → Type 0
IsName child = NoSlash child × (child ≢ [])

-- What DeleteChildren may delete: the nodes that are reached from a child of the node, and the node
-- itself if that was asked for.
abbrev pub Touched : Bytes → Bool → Bytes → Type 0
Touched p self q =
    ((child : Bytes) × IsName child × IsBelow (join_path p (child ∷ [])) q)
    ⊎ ((self ≡ true) × (q ≡ p))

module _ {S A T : Type 0} (conn : Conn S A T) (P : S → Type 0) where
  abbrev Deletes : Bytes → Type 0
  Deletes p = (s : S) → P s → P (conn.delete p any_version s).1

  abbrev Keeps : (S → Option (Option Err × S)) → Type 0
  Keeps f = (s : S) → P s → Leaves P (f s)

  delete_each-Leaves :
      (Q : Bytes → Type 0) (call : Bytes → S → Option (Option Err × S)) (p : Bytes)
      (children : List Bytes)
      → All Q children
      → ((child : Bytes) → Q child → Keeps (call (join_path p (child ∷ []))))
      → Keeps (delete_each conn call p children)
  unfolding delete_each
  delete_each-Leaves Q call p [] listed k s h = h
  delete_each-Leaves Q call p (child ∷ rest) (named, listed) k s h =
      next_Leaves P (call (join_path p (child ∷ [])) s) (λ t. delete_each conn call p rest t)
        (k child named s h) (delete_each-Leaves Q call p rest listed k)

  delete_self-Leaves :
      (call : Bytes → S → Option (Option Err × S)) (p : Bytes)
      → Deletes p
      → Keeps (call p)
      → Keeps (delete_self conn call p)
  unfolding delete_self
  delete_self-Leaves call p deletes k s h =
      ends (conn.delete p any_version s).0 (conn.delete p any_version s).1 (deletes s h)
    where
      again :
          (e : Err) (t : S)
          → P t
          → Leaves P (
              if is_not_empty e
              then call p t
              else (if is_no_node e then some (none, t) else some (some e, t)))
      again e t ht = elim (Bool-cases (is_not_empty e)) [
        | inl more ↦ rw more (k t ht)
        | inr less ↦ elim (Bool-cases (is_no_node e)) [
          | inl gone ↦ rw less (rw gone ht)
          | inr left ↦ rw less (rw left ht)
        ]
      ]

      ends :
          (err : Option Err) (t : S)
          → P t
          → Leaves P (elim err [
            | none ↦ some (none, t)
            | some e ↦
                if is_not_empty e
                then call p t
                else (if is_no_node e then some (none, t) else some (some e, t))
          ])
      ends none t ht = ht
      ends (some e) t ht = again e t ht

  module _ (reads : (p : Bytes) (s : S) → P s → P (conn.children p s).1) where
    delete_node-Leaves :
        (Q : Bytes → Type 0) (call : Bytes → S → Option (Option Err × S)) (p : Bytes) (self : Bool)
        → ((s : S) → All Q (elements (conn.children p s).0.0))
        → ((child : Bytes) → Q child → Keeps (call (join_path p (child ∷ []))))
        → (self ≡ true → Deletes p × Keeps (call p))
        → Keeps (delete_node conn call p self)
    unfolding delete_node
    delete_node-Leaves Q call p self listed k own s h =
        found ((conn.children p s).0.2) (elements (conn.children p s).0.0) (conn.children p s).1
          (listed s) (reads p s h)
      where
        whole :
            (t : S) → P t → Leaves P (if self then delete_self conn call p t else some (none, t))
        whole t ht = elim (Bool-cases self) [
          | inl is_own ↦
              let (deletes, again) = own is_own in
              rw is_own (delete_self-Leaves call p deletes again t ht)
          | inr kept ↦ rw kept ht
        ]

        found :
            (err : Option Err) (names : List Bytes) (t : S)
            → All Q names
            → P t
            → Leaves P (elim err [
              | some e ↦ some (some e, t)
              | none ↦ elim (delete_each conn call p names t) [
                | none ↦ none
                | some (some e, s2) ↦ some (some e, s2)
                | some (none, s2) ↦ if self then delete_self conn call p s2 else some (none, s2)
              ]
            ])
        found (some e) names t all ht = ht
        found none names t all ht =
            next_Leaves P (delete_each conn call p names t)
              (λ s2. if self then delete_self conn call p s2 else some (none, s2))
              (delete_each-Leaves Q call p names all k t ht) whole

    any_names : (names : List Bytes) → All (λ name. Unit {0}) names
    any_names [] = tt
    any_names (name ∷ rest) = (tt, any_names rest)

    -- A call at or below `root` deletes at or below it.
    pub delete_below-Leaves :
        (root : Bytes)
        → ((q : Bytes) → IsBelow root q → Deletes q)
        → (fuel : ℕ) (p : Bytes) (self : Bool) → IsBelow root p
        → Keeps (delete_children conn fuel p self)
    unfolding delete_children
    delete_below-Leaves root deletes zero p self b s h = tt
    delete_below-Leaves root deletes (suc fuel) p self b s h =
        elim (Option-cases (validate_path p)) [
          | inr (e, bad) ↦ rw (bad, delete_children) h
          | inl valid ↦
              rw (valid, delete_children)
                (delete_node-Leaves (λ name. Unit) (λ q t. delete_children conn fuel q true t) p
                  self (λ t. any_names (elements (conn.children p t).0.0))
                  (λ child name.
                    delete_below-Leaves root deletes fuel (join_path p (child ∷ [])) true
                      (below child b))
                  (λ own. (deletes p b, delete_below-Leaves root deletes fuel p true b)) s h)
        ]

    -- Whatever is kept by reading children, by deleting nodes that are reached from a child of the
    -- given one and, if deleteSelf is set, by deleting the given one, DeleteChildren keeps: it touches
    -- nothing else, and without deleteSelf not the node itself, wherever it stops. The names of the
    -- children that the server lists are not empty and have no separator.
    pub delete_children-Leaves :
        (listed : (q : Bytes) (s : S) → All IsName (elements (conn.children q s).0.0))
        → (fuel : ℕ) (p : Bytes) (self : Bool) (s : S)
        → ((q : Bytes) (t : S) → Touched p self q → P t → P (conn.delete q any_version t).1)
        → P s
        → Leaves P (delete_children conn fuel p self s)
    unfolding delete_children
    delete_children-Leaves listed zero p self s deletes h = tt
    delete_children-Leaves listed (suc fuel) p self s deletes h =
        elim (Option-cases (validate_path p)) [
          | inr (e, bad) ↦ rw (bad, delete_children) h
          | inl valid ↦
              rw (valid, delete_children)
                (delete_node-Leaves IsName (λ q t. delete_children conn fuel q true t) p self
                  (listed p)
                  (λ child name.
                    delete_below-Leaves (join_path p (child ∷ []))
                      (λ q b t. deletes q t (inl (child, name, b))) fuel (join_path p (child ∷ []))
                      true here)
                  (λ own. (
                    λ t. deletes p t (inr (own, refl)),
                    λ t.
                        delete_children-Leaves listed fuel p true t
                          (λ q u touched. deletes q u (wider own touched)),
                  ))
                  s h)
        ]
      where
        wider : {q : Bytes} → self ≡ true → Touched p true q → Touched p self q
        wider own (inl b) = inl b
        wider own (inr (set, same)) = inr (own, same)
