-- ===== src/Path/Tests.antt =====
-- The laws of paths.go at concrete paths.
use curator_go.Base.{◌≡◌, refl, ◌≢◌, ◌↔◌, inr, none, text, has_prefix, has_suffix, bytes_eq}
use curator_go.Path.Names.{IsAbsolute}
use curator_go.Path.Validate.{validate_path, validate_from, decode_rune, check_rune}
use curator_go.Path.Validate.Refines.{IsPath, validate_path-IsPath}

valid_path : validate_path (text "/a/b..c/.d") ≡ none
unfolding validate_path validate_from decode_rune check_rune
valid_path = refl

relative_path_refused : validate_path (text "/a/../b") ≢ none
unfolding validate_path validate_from decode_rune check_rune
relative_path_refused e = cc

validate_path-IsPath_example : (validate_path (text "/a/..") ≡ none) ↔ IsPath (text "/a/..")
validate_path-IsPath_example = validate_path-IsPath (text "/a/..")

a_b_IsAbsolute : IsAbsolute (text "/a/b")
unfolding has_prefix has_suffix bytes_eq
a_b_IsAbsolute = inr (refl, refl)
