-- ===== src/Path/Names.antt =====
-- The laws of GetNodeFromPath, SplitPath and JoinPath (paths.go).
use curator_go.Base.{
  ℕ, suc, ◌+◌, ◌-◌, ◌≡◌, refl, ap, ◌∙◌, ◌≢◌, ◌⊎◌, inl, inr, true, false, none, some, List, [], ◌∷◌,
  ◌++◌, arith, ◌==◌, if◌then◌else◌, length, take, drop, All, length-append, take-append, Bytes,
  bytes_eq, has_prefix, has_suffix, last_index, drop_last,
}
use native.Mathlib.Numerals.{add-one}
use curator_go.Path.{
  slash, path_separator, PathAndNode, get_node_from_path, split_path, join_parent, trim_child,
  join_child, join_children, join_path,
}

abbrev pub NoSlash : Bytes → Type 0
NoSlash s = All (λ c. c ≢ slash) s

last_index-NoSlash : (s : Bytes) → NoSlash s → last_index s path_separator ≡ none
unfolding last_index
last_index-NoSlash [] h = refl
last_index-NoSlash (c ∷ s) (p, h) = ground (arith, last_index-NoSlash s h)

-- The last separator of a path that ends in a node name stands before that name.
last_index-append :
    (p node : Bytes)
    → NoSlash node
    → last_index (p ++ slash ∷ node) path_separator ≡ some (length p)
unfolding last_index
last_index-append [] node h = rw (last_index-NoSlash node h) refl
last_index-append (c ∷ p) node h = rw (last_index-append p node h) refl

drop-after : (p : Bytes) (c : ℕ) (node : Bytes) → drop (length p + 1) (p ++ c ∷ node) ≡ node
drop-after p c node = rw add-one (go p)
  where
    go : (q : Bytes) → drop (suc (length q)) (q ++ c ∷ node) ≡ node
    go [] = refl
    go (x ∷ q) = go q

pub get_node_from_path-append :
    (p node : Bytes) → NoSlash node → get_node_from_path (p ++ slash ∷ node) ≡ node
unfolding get_node_from_path
get_node_from_path-append p [] h =
    rw (last_index-append p [] h, get_node_from_path) (ground (arith, drop-after p slash []))
get_node_from_path-append p (d ∷ node) h =
    rw (last_index-append p (d ∷ node) h, get_node_from_path)
      (ground (arith, drop-after p slash (d ∷ node), length-append p (slash ∷ d ∷ node)))

pub split_path-append :
    (p node : Bytes)
    → NoSlash node
    → split_path (p ++ slash ∷ node)
      ≡ record { path = if length p == 0 then path_separator else p; node = node }
unfolding split_path
split_path-append p node h =
    rw (last_index-append p node h, split_path)
      (ground (arith, drop-after p slash node, take-append p (slash ∷ node)))

has_suffix-NoSlash : (s : Bytes) → NoSlash s → has_suffix s path_separator ≡ false
unfolding has_suffix
has_suffix-NoSlash [] h = refl
has_suffix-NoSlash (c ∷ s) (p, h) = ground (arith, has_suffix-NoSlash s h)

-- A node name is written as it is.
trim_child-NoSlash : (child : Bytes) → NoSlash child → trim_child child ≡ child
unfolding trim_child
trim_child-NoSlash [] h = refl
trim_child-NoSlash (c ∷ s) (p, h) = ground (arith, has_suffix-NoSlash (c ∷ s) (p, h))

pub join_child-NoSlash :
    (path child : Bytes)
    → NoSlash child
    → child ≢ []
    → join_child path child ≡ path ++ slash ∷ child
unfolding join_child
join_child-NoSlash path [] h e = absurd (e refl)
join_child-NoSlash path (c ∷ s) (p, h) e = ground (arith, trim_child-NoSlash (c ∷ s) (p, h))

-- Joining one node name to any parent, then taking the last node, gives the name back.
pub get_node_from_path-join_path :
    (parent child : Bytes)
    → NoSlash child
    → child ≢ []
    → get_node_from_path (join_path parent (child ∷ [])) ≡ child
unfolding join_path
get_node_from_path-join_path parent child h e =
    rw (join_child-NoSlash (join_parent parent) child h e)
      (get_node_from_path-append (join_parent parent) child h)

-- An absolute path that does not end in a separator, or the root.
abbrev pub IsAbsolute : Bytes → Type 0
IsAbsolute p =
    (p ≡ path_separator)
    ⊎ ((has_prefix p path_separator ≡ true) × (has_suffix p path_separator ≡ false))

join_parent-IsAbsolute :
    (p : Bytes)
    → IsAbsolute p
    → (if length (join_parent p) == 0 then path_separator else join_parent p) ≡ p
unfolding join_parent
join_parent-IsAbsolute [] h = ground arith
join_parent-IsAbsolute (c ∷ p) h = ground arith

-- Splitting undoes joining: a node name joined to an absolute parent splits into the two.
pub split_path-join_path :
    (parent child : Bytes)
    → IsAbsolute parent
    → NoSlash child
    → child ≢ []
    → split_path (join_path parent (child ∷ [])) ≡ record { path = parent; node = child }
unfolding join_path
split_path-join_path parent child a h e = rw (join_child-NoSlash (join_parent parent) child h e) (
    split_path-append (join_parent parent) child h
    ∙ ap (λ (q : Bytes). let r : PathAndNode = record { path = q; node = child } in r)
        (join_parent-IsAbsolute parent a))

join_child-has_prefix :
    (path child : Bytes)
    → (path ≡ []) ⊎ (has_prefix path path_separator ≡ true)
    → has_prefix (join_child path child) path_separator ≡ true
unfolding join_child
join_child-has_prefix [] child h = ground arith
join_child-has_prefix (c ∷ path) child h = ground arith

join_children-has_prefix :
    (path : Bytes) (children : List Bytes)
    → has_prefix path path_separator ≡ true
    → has_prefix (join_children path children) path_separator ≡ true
unfolding join_children
join_children-has_prefix path [] h = h
join_children-has_prefix path (child ∷ rest) h =
    join_children-has_prefix (join_child path child) rest (join_child-has_prefix path child (inr h))

drop_last-head :
    (c : ℕ) (p : Bytes) → (drop_last (c ∷ p) ≡ []) ⊎ ((q : Bytes) × (drop_last (c ∷ p) ≡ c ∷ q))
unfolding drop_last
drop_last-head c [] = inl refl
drop_last-head c (d ∷ p) =
    let e : suc (suc (length p)) - 1 ≡ suc (length p) = omega arith in
    inr (take (length p) (d ∷ p), rw e refl)

join_parent-has_prefix :
    (p : Bytes) → (join_parent p ≡ []) ⊎ (has_prefix (join_parent p) path_separator ≡ true)
unfolding join_parent
join_parent-has_prefix [] = inl refl
join_parent-has_prefix (c ∷ p) = ground (arith, drop_last-head c p)

-- With at least one child the joined path is absolute, whatever the parent and the children are.
pub has_prefix-join_path :
    (parent child : Bytes) (rest : List Bytes)
    → has_prefix (join_path parent (child ∷ rest)) path_separator ≡ true
unfolding join_path
has_prefix-join_path parent child rest =
    join_children-has_prefix (join_child (join_parent parent) child) rest
      (join_child-has_prefix (join_parent parent) child (join_parent-has_prefix parent))

trim_child-absolute :
    (r : Bytes) → has_suffix (slash ∷ r) path_separator ≡ false → trim_child (slash ∷ r) ≡ r
unfolding trim_child
trim_child-absolute r h = ground arith

join_child-absolute :
    (base path : Bytes)
    → IsAbsolute path
    → join_child base path ≡ (
        if bytes_eq path path_separator
        then (if length base == 0 then path_separator else base)
        else base ++ path)
unfolding join_child
join_child-absolute [] [] h = ground arith
join_child-absolute (b ∷ base) [] h = ground arith
join_child-absolute [] (c ∷ r) h = ground (arith, trim_child-absolute r)
join_child-absolute (b ∷ base) (c ∷ r) h = ground (arith, trim_child-absolute r)

-- Joining an absolute path to a parent: the root adds nothing, and any other path is written
-- behind what is written for the parent alone.
pub join_path-absolute :
    (parent path : Bytes)
    → IsAbsolute path
    → join_path parent (path ∷ []) ≡ (
        if bytes_eq path path_separator
        then (if length (join_path parent []) == 0 then path_separator else join_path parent [])
        else join_path parent [] ++ path)
unfolding join_path
join_path-absolute parent path h = join_child-absolute (join_parent parent) path h
