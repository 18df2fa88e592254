-- ===== src/Path/Validate/Refines.antt =====
-- ValidatePath (paths.go) accepts exactly the paths of its specification.
use mathlib.Core.Path.{subst}
use curator_go.Base.{
  ℕ, ◌≡◌, refl, sym, ◌∙◌, ◌≢◌, ◌↔◌, ◌⊎◌, none, some, [], ◌∷◌, arith, ◌==◌, ==_iff, if◌then◌else◌,
  Bytes, Bool-cases, inl, inr, has_suffix,
}
use curator_go.Errors.{null_path, no_leading_slash, trailing_slash}
use curator_go.Path.{slash, path_separator}
use curator_go.Path.Validate.{decode_rune, slash_before, validate_from, validate_path}
use curator_go.Path.Validate.Segments.{runes, segments, AreNodeNames}
use curator_go.Path.Validate.Modes.{start}
use curator_go.Path.Validate.Loops.{
  validate_from_sound, validate_from_complete, segments-has_suffix,
}

-- The specification: the root, or node names with a separator before each of them.
abbrev pub IsPath : Bytes → Type 0
IsPath path =
    (path ≡ path_separator)
    ⊎ ((rest : Bytes) × (path ≡ slash ∷ rest) × AreNodeNames (segments [] (runes 0 rest)))

validate_from-first :
    (s : Bytes) → validate_from 0 [] 0 slash (slash ∷ s) ≡ validate_from 0 (slash ∷ []) 1 slash s
unfolding validate_from decode_rune
validate_from-first s = refl

validate_path-slash :
    (d : ℕ) (s : Bytes)
    → validate_path (slash ∷ d ∷ s) ≡ (
        if has_suffix (d ∷ s) path_separator
        then some trailing_slash
        else validate_from 0 (slash ∷ []) 1 slash (d ∷ s))
unfolding validate_path
validate_path-slash d s = ground (arith, validate_from-first (d ∷ s))

validate_path-other :
    (b : ℕ) (s : Bytes) → b ≢ slash → validate_path (b ∷ s) ≡ some no_leading_slash
unfolding validate_path
validate_path-other b s h = ground arith

validate_path_sound-slash : (s : Bytes) → validate_path (slash ∷ s) ≡ none → IsPath (slash ∷ s)
validate_path_sound-slash [] e = inl refl
validate_path_sound-slash (d ∷ s) e = elim (Bool-cases (has_suffix (d ∷ s) path_separator)) [
  | inl ends ↦ cc (rw ends at (validate_path-slash d s))
  | inr ends ↦
      let checked = sym (rw ends at (validate_path-slash d s)) ∙ e in
      inr (
        d ∷ s,
        refl,
        validate_from_sound (d ∷ s) 0 start [] (slash ∷ []) 1 slash
            (refl, refl, unfold slash_before in refl) ends tt (omega arith) checked,
      )
]

validate_path-nil : validate_path [] ≡ some null_path
unfolding validate_path
validate_path-nil = refl

validate_path_sound : (path : Bytes) → validate_path path ≡ none → IsPath path
validate_path_sound [] e = absurd (ground (arith, validate_path-nil))
validate_path_sound (b ∷ s) e = elim (Bool-cases (b == slash)) [
  | inl here ↦
      let first = (==_iff b slash).0 here in
      subst (λ x. IsPath (x ∷ s)) (sym first) (validate_path_sound-slash s (rw first at e))
  | inr off ↦ cc (validate_path-other b s (ground arith))
]

validate_path_complete : (path : Bytes) → IsPath path → validate_path path ≡ none
validate_path_complete path (inl e) = rw e (unfold validate_path in refl)
validate_path_complete path (inr (rest, e, names)) = rw e (go rest names)
  where
    go : (s : Bytes) → AreNodeNames (segments [] (runes 0 s)) → validate_path (slash ∷ s) ≡ none
    go [] h = unfold validate_path in refl
    go (d ∷ s) h = rw (validate_path-slash d s) (
        rw (segments-has_suffix (d ∷ s) 0 [] tt h) (
          validate_from_complete (d ∷ s) 0 start [] (slash ∷ []) 1 slash
            (refl, refl, unfold slash_before in refl) (omega arith) h))

-- ValidatePath returns nil exactly for the paths of the specification: the root, or a path that
-- starts with a separator and whose runes, cut at the separators, are node names: not empty, not
-- "." or "..", and free of the characters that the table excludes.
pub validate_path-IsPath : (path : Bytes) → (validate_path path ≡ none) ↔ IsPath path
validate_path-IsPath path = (validate_path_sound path, validate_path_complete path)
