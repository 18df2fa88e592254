-- ===== src/Namespace/Laws.antt =====
-- Putting a namespace in front of a path and taking it off (namespace.go).
use curator_go.Base.{
  ◌<◌, ◌≡◌, refl, sym, ◌∙◌, ◌≢◌, inl, inr, [], ◌∷◌, ◌++◌, arith, ltb, if◌then◌else◌, length, Bytes,
  has_prefix, length-append, drop-append, has_prefix-append, append-nil, ap, ◌==◌, Bool-cases,
  bytes_eq, bytes_eq_iff,
}
use curator_go.Path.{path_separator, join_path}
use curator_go.Path.Names.{IsAbsolute, join_path-absolute}
use curator_go.Namespace.{fix_for_namespace, unfix_for_namespace}

-- Whatever stands behind the prefix of a namespace is what is left of the path, also where no
-- separator follows the prefix: the path of a node outside the namespace, such as "/appendix" for
-- the namespace "app", is cut within its name.
pub unfix_for_namespace-append :
    (namespace x : Bytes)
    → namespace ≢ []
    → x ≢ []
    → unfix_for_namespace namespace (join_path namespace [] ++ x) ≡ x
unfolding unfix_for_namespace
unfix_for_namespace-append [] x h k = absurd (h refl)
unfix_for_namespace-append (c ∷ n) [] h k = absurd (k refl)
unfix_for_namespace-append (c ∷ n) (y ∷ x) h k =
    let p = join_path (c ∷ n) [] in
    ground (arith, has_prefix-append p (y ∷ x), length-append p (y ∷ x), drop-append p (y ∷ x))

unfix_for_namespace-prefix :
    (namespace : Bytes)
    → namespace ≢ []
    → 0 < length (join_path namespace [])
    → unfix_for_namespace namespace (join_path namespace []) ≡ path_separator
unfolding unfix_for_namespace
unfix_for_namespace-prefix [] h k = absurd (h refl)
unfix_for_namespace-prefix (c ∷ n) h k =
    let p = join_path (c ∷ n) [] in
    let whole = append-nil p in ground (arith, has_prefix-append p [], whole)

fix_for_namespace-nonempty :
    (namespace path : Bytes)
    → namespace ≢ []
    → fix_for_namespace namespace path ≡ join_path namespace (path ∷ [])
unfolding fix_for_namespace
fix_for_namespace-nonempty [] path h = absurd (h refl)
fix_for_namespace-nonempty (c ∷ n) path h = ground arith

unfix-fix_root :
    (namespace : Bytes)
    → namespace ≢ []
    → unfix_for_namespace namespace
        (if length (join_path namespace []) == 0 then path_separator else join_path namespace [])
      ≡ path_separator
unfix-fix_root namespace h =
    split (join_path namespace []) (unfix_for_namespace-append namespace path_separator h (λ e. cc))
      (unfix_for_namespace-prefix namespace h)
  where
    split :
        (p : Bytes)
        → unfix_for_namespace namespace (p ++ path_separator) ≡ path_separator
        → (0 < length p → unfix_for_namespace namespace p ≡ path_separator)
        → unfix_for_namespace namespace (if length p == 0 then path_separator else p)
          ≡ path_separator
    split [] a b = a
    split (x ∷ p) a b = ground (arith, b)

IsAbsolute-ne-nil : (path : Bytes) → IsAbsolute path → path ≢ []
unfolding has_prefix
IsAbsolute-ne-nil [] h e = ground arith
IsAbsolute-ne-nil (c ∷ p) h e = cc

-- Taking a namespace off undoes putting it in front, for every absolute path that does not end in a
-- separator, and for the root.
pub unfix_for_namespace-fix_for_namespace :
    (namespace path : Bytes)
    → IsAbsolute path
    → unfix_for_namespace namespace (fix_for_namespace namespace path) ≡ path
unfolding fix_for_namespace unfix_for_namespace
unfix_for_namespace-fix_for_namespace namespace path h =
    elim (Bool-cases (ltb 0 (length namespace))) [
      | inl used ↦
          let filled : namespace ≢ [] = ground arith in
          ap (unfix_for_namespace namespace)
            (fix_for_namespace-nonempty namespace path filled ∙ join_path-absolute namespace path h)
          ∙ elim (Bool-cases (bytes_eq path path_separator)) [
            | inl root ↦
                rw root (
                  unfix-fix_root namespace filled ∙ sym ((bytes_eq_iff path path_separator).0 root))
            | inr other ↦
                rw other
                  (unfix_for_namespace-append namespace path filled (IsAbsolute-ne-nil path h))
          ]
      | inr unused ↦ ground arith
    ]
