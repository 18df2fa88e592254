-- ===== src/Path/Dirs/Tests.antt =====
-- MakeDirs and DeleteChildren (paths.go) over a small server.
use curator_go.Base.{
  ℕ, suc, ◌-◌, ◌<◌, ◌≡◌, ◌≢◌, ap, ◌∙◌, refl, true, false, none, some, List, [], ◌∷◌, ◌++◌, ◌||◌,
  ◌==◌, arith, All, Bytes, text, if◌then◌else◌, bytes_eq, Bool-cases, inl, inr, length, take, ◌≤◌,
  Returns, bytes_eq_iff, has_prefix, has_suffix, drop_last,
}
use curator_go.Errors.{Err, zk, not_empty, is_not_empty}
use curator_go.Zk.{Conn, any_version, elements}
use curator_go.Zk.Sample.{has_node, remove_node-other, sample_children, server}
use curator_go.Path.{slash, path_separator, join_path, join_parent, join_child, trim_child}
use curator_go.Path.Names.{join_child-NoSlash}
use curator_go.Path.Validate.{validate_path, validate_from, decode_rune, check_rune}
use curator_go.Path.Dirs.{ensure_node, make_dirs, delete_children}
use curator_go.Path.Dirs.Ancestors.{render, ancestors, visit, make_dirs-visit}
use curator_go.Path.Dirs.Endings.{IsSettling, delete_children-Returns}
use curator_go.Path.Dirs.Subtree.{
  IsName, IsBelow, here, below, Touched, Leaves, delete_children-Leaves,
}

a_b_valid : validate_path (render (text "a" ∷ text "b" ∷ [])) ≡ none
unfolding render validate_path validate_from decode_rune check_rune
a_b_valid = refl

make_dirs-visit_example :
    make_dirs server (render (text "a" ∷ text "b" ∷ [])) true none []
    ≡ some (visit server none (ancestors [] (text "a" ∷ text "b" ∷ []) true) [])
make_dirs-visit_example =
    make_dirs-visit server none true (text "a") (text "b" ∷ []) []
      (((omega arith, tt), λ e. cc), (((omega arith, tt), λ e. cc), tt)) a_b_valid

-- Both nodes are made, the parent first.
visit_makes_both :
    visit server none (ancestors [] (text "a" ∷ text "b" ∷ []) true) []
    ≡ (none, text "/a/b" ∷ text "/a" ∷ [])
unfolding visit ancestors ensure_node has_node bytes_eq
visit_makes_both = refl

server_lists : (q : Bytes) (s : List Bytes) → All IsName (elements (server.children q s).0.0)
unfolding sample_children
server_lists q s = elim (Bool-cases (bytes_eq q (text "/a"))) [
  | inl top ↦ rw top (((omega arith, tt), λ e. cc), tt)
  | inr other ↦ rw other tt
]

-- What is reached from a child of "/a" is longer than it.
abbrev Under : Bytes → Type 0
Under q = (d : ℕ) × (r : Bytes) × (d ≢ slash) × (q ≡ slash ∷ (97 ∷ (slash ∷ (d ∷ r))))

join_parent-Under :
    (d : ℕ) (r : Bytes)
    → d ≢ slash
    → (x : Bytes) × (join_parent (slash ∷ (97 ∷ (slash ∷ (d ∷ r))))
        ≡ slash ∷ (97 ∷ (slash ∷ (d ∷ x))))
unfolding join_parent has_suffix has_prefix drop_last bytes_eq
join_parent-Under d [] h = ([], ground arith)
join_parent-Under d (e ∷ r) h =
    elim (Bool-cases (has_suffix (slash ∷ (97 ∷ (slash ∷ (d ∷ (e ∷ r))))) path_separator)) [
      | inl ends ↦
          let k : suc (suc (suc (suc (suc (length r))))) - 1 ≡ suc (suc (suc (suc (length r)))) =
            omega arith in
          (take (length r) (e ∷ r), rw ends (rw k refl))
      | inr other ↦ (e ∷ r, rw other refl)
    ]

join_child-Under : (q child : Bytes) → Under q → Under (join_child q child)
unfolding join_child
join_child-Under q child (d, r, named, e) =
    elim (Bool-cases (length child == 0 || bytes_eq child path_separator)) [
      | inl empty ↦ (d, r, named, rw (e, empty) (ground arith))
      | inr filled ↦ (d, r ++ slash ∷ trim_child child, named, rw (e, filled) refl)
    ]

IsBelow-Under : {p q : Bytes} → Under p → IsBelow p q → Under q
unfolding join_path
IsBelow-Under u here = u
IsBelow-Under u (below {p = q'} child b) =
    let (d, r, named, e) = IsBelow-Under u b in
    let (x, e') = join_parent-Under d r named in
    join_child-Under (join_parent q') child (d, x, named, ap join_parent e ∙ e')

child-Under : (child : Bytes) → IsName child → Under (join_path (text "/a") (child ∷ []))
unfolding join_path
child-Under [] (plain, filled) = absurd (filled refl)
child-Under (d ∷ r) (plain, filled) = (
  d,
  r,
  plain.0,
  join_child-NoSlash (join_parent (text "/a")) (d ∷ r) plain filled ∙ (unfold join_parent in refl),
)

spared :
    (q : Bytes) (s : List Bytes)
    → Touched (text "/a") false q
    → has_node (text "/a") s ≡ true
    → has_node (text "/a") (server.delete q any_version s).1 ≡ true
spared q s (inr (own, same)) h = absurd cc
spared q s (inl (child, named, b)) h =
    let (d, r, other, e) = IsBelow-Under (child-Under child named) b in
    let apart : bytes_eq (text "/a") q ≡ false = rw e (unfold bytes_eq in refl) in
    ground (arith, remove_node-other (text "/a") q s apart h)

delete_children-Leaves_example :
    Leaves
      (λ s. has_node (text "/a") s ≡ true)
      (delete_children server 5 (text "/a") false (text "/a/b" ∷ text "/a" ∷ []))
delete_children-Leaves_example =
    delete_children-Leaves server (λ s. has_node (text "/a") s ≡ true) (λ p s h. h) server_lists 5
      (text "/a") false (text "/a/b" ∷ text "/a" ∷ []) spared (unfold has_node bytes_eq in refl)

abbrev height : Bytes → ℕ
height p = if bytes_eq p (text "/a") then 1 else 0

-- A server that refuses as many deletions as its state is long, each for a child made meanwhile.
abbrev busy_server : Conn (List Bytes) ℕ ℕ
busy_server = record server {
  delete = λ p version s. elim s [ [] ↦ (none, []) | x ∷ rest ↦ (some (zk not_empty), rest) ];
}

busy_listed :
    (p : Bytes) (s : List Bytes)
    → All (λ c. height (join_path p (c ∷ [])) < height p) (elements (busy_server.children p s).0.0)
unfolding sample_children
busy_listed p s = elim (Bool-cases (bytes_eq p (text "/a"))) [
  | inl top ↦
      rw ((bytes_eq_iff p (text "/a")).0 top) (unfold bytes_eq join_path in (omega arith, tt))
  | inr other ↦ rw other tt
]

busy_deletes :
    (p : Bytes) (s : List Bytes) → length (busy_server.delete p any_version s).1 ≤ length s
busy_deletes p [] = omega arith
busy_deletes p (x ∷ s) = omega arith

busy_refuses :
    (p : Bytes) (s : List Bytes) (e : Err)
    → (busy_server.delete p any_version s).0 ≡ some e
    → is_not_empty e ≡ true
    → length (busy_server.delete p any_version s).1 < length s
busy_refuses p [] e h k = absurd cc
busy_refuses p (x ∷ s) e h k = omega arith

busy_server-IsSettling : IsSettling busy_server height (λ s. length s)
busy_server-IsSettling = record {
  listed = busy_listed;
  reads = λ p s. omega arith;
  deletes = busy_deletes;
  refuses = busy_refuses;
}

delete_children-Returns_example :
    Returns (delete_children busy_server 4 (text "/a") true (text "/a/b/c" ∷ text "/a/d" ∷ []))
delete_children-Returns_example =
    delete_children-Returns busy_server height (λ s. length s) busy_server-IsSettling 4 (text "/a")
      true (text "/a/b/c" ∷ text "/a/d" ∷ []) (unfold bytes_eq in omega arith)
