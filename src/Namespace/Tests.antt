-- ===== src/Namespace/Tests.antt =====
-- namespace.go at concrete namespaces and paths.
use curator_go.Base.{◌≡◌, refl, inr, [], ◌++◌, text, has_prefix, has_suffix, bytes_eq}
use curator_go.Path.{join_path}
use curator_go.Path.Names.{IsAbsolute}
use curator_go.Namespace.{FacadeCache, find, get, fix_for_namespace, unfix_for_namespace}
use curator_go.Namespace.Laws.{unfix_for_namespace-append, unfix_for_namespace-fix_for_namespace}
use curator_go.Namespace.Cache.{IsValid, get_same}

a_IsAbsolute : IsAbsolute (text "/a")
unfolding has_prefix has_suffix bytes_eq
a_IsAbsolute = inr (refl, refl)

unfix_for_namespace-fix_for_namespace_example :
    unfix_for_namespace (text "app") (fix_for_namespace (text "app") (text "/a")) ≡ text "/a"
unfix_for_namespace-fix_for_namespace_example =
    unfix_for_namespace-fix_for_namespace (text "app") (text "/a") a_IsAbsolute

unfix_for_namespace-append_example :
    unfix_for_namespace (text "app") (join_path (text "app") [] ++ text "endix") ≡ text "endix"
unfix_for_namespace-append_example =
    unfix_for_namespace-append (text "app") (text "endix") (λ e. cc) (λ e. cc)

abbrev empty_cache : FacadeCache
empty_cache = record { made = 0; cache = [] }

empty_cache-IsValid : IsValid empty_cache
unfolding find
empty_cache-IsValid = record { made_before = λ key f e. cc; apart = λ k j f g e d same. cc }

get_same_example :
    let (c1, f) = get empty_cache (text "app") in
    let (c2, g) = get c1 (text "other") in
    ((get c2 (text "app")).1 ≡ f)
    × ((get c2 (text "app")).0 ≡ c2)
    × (f.id ≡ g.id → text "app" ≡ text "other")
    × IsValid c1
get_same_example = get_same empty_cache (text "app") (text "other") empty_cache-IsValid
