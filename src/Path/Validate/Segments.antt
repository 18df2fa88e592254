-- ===== src/Path/Validate/Segments.antt =====
-- The specification of ValidatePath (paths.go): the runes of a path, cut at the separators, are
-- node names.
use mathlib.Core.Path.{subst}
use curator_go.Base.{
  ℕ, zero, suc, ◌-◌, ◌≡◌, refl, ◌≢◌, true, false, List, [], ◌∷◌, ◌++◌, arith, ◌==◌, ==_iff,
  if◌then◌else◌, All, Bytes, Bool-cases, inl, inr,
}
use curator_go.Path.{slash, dot}
use curator_go.Path.Validate.{is_invalid, decode_rune, at_segment_end}

-- The runes of a string, after `skip` bytes that belong to the rune before.
unfoldable pub runes : ℕ → Bytes → List ℕ
runes skip [] = []
runes (suc k) (b ∷ s) = runes k s
runes zero (b ∷ s) = let (c, width) = decode_rune b s in c ∷ runes (width - 1) s

-- `cur` holds the runes read since the last separator.
unfoldable pub segments : List ℕ → List ℕ → List (List ℕ)
segments cur [] = cur ∷ []
segments cur (c ∷ rest) =
    let cut = segments [] rest in
    let go_on = segments (cur ++ c ∷ []) rest in if c == slash then cur ∷ cut else go_on

abbrev pub AllValid : List ℕ → Type 0
AllValid name = All (λ c. is_invalid c ≡ false) name

pub record IsNodeName (name : List ℕ) : Type 0 where
  pub not_empty : name ≢ []
  pub not_dot : name ≢ dot ∷ []
  pub not_dots : name ≢ dot ∷ dot ∷ []
  pub valid : AllValid name

abbrev pub AreNodeNames : List (List ℕ) → Type 0
AreNodeNames names = All IsNodeName names

AllValid-prefix : (xs ys : List ℕ) → AllValid (xs ++ ys) → AllValid xs
AllValid-prefix [] ys h = tt
AllValid-prefix (x ∷ xs) ys h = (h.0, AllValid-prefix xs ys h.1)

pub AllValid-snoc :
    (xs : List ℕ) (c : ℕ) → AllValid xs → is_invalid c ≡ false → AllValid (xs ++ c ∷ [])
AllValid-snoc [] c h e = (e, tt)
AllValid-snoc (x ∷ xs) c h e = (h.0, AllValid-snoc xs c h.1 e)

AllValid-last : (xs : List ℕ) (c : ℕ) → AllValid (xs ++ c ∷ []) → is_invalid c ≡ false
AllValid-last [] c h = h.0
AllValid-last (x ∷ xs) c h = AllValid-last xs c h.1

pub segments-slash : (cur rest : List ℕ) → segments cur (slash ∷ rest) ≡ cur ∷ segments [] rest
unfolding segments
segments-slash cur rest = refl

pub segments-other :
    (cur : List ℕ) (c : ℕ) (rest : List ℕ)
    → c ≢ slash
    → segments cur (c ∷ rest) ≡ segments (cur ++ c ∷ []) rest
unfolding segments
segments-other cur c rest h = ground arith

pub segments-AllValid : (cur rest : List ℕ) → AreNodeNames (segments cur rest) → AllValid cur
unfolding segments
segments-AllValid cur [] h = h.0.valid
segments-AllValid cur (c ∷ rest) h = elim (Bool-cases (c == slash)) [
  | inl e ↦ (rw e at h).0.valid
  | inr e ↦ AllValid-prefix cur (c ∷ []) (segments-AllValid (cur ++ c ∷ []) rest (rw e at h))
]

-- A rune that the table excludes stands in no node name.
pub segments-is_invalid :
    (cur : List ℕ) (c : ℕ) (rest : List ℕ)
    → AreNodeNames (segments (cur ++ c ∷ []) rest)
    → is_invalid c ≡ false
segments-is_invalid cur c rest h = AllValid-last cur c (segments-AllValid (cur ++ c ∷ []) rest h)

-- Where a segment ends, it is one of the names.
pub segments-end :
    (cur : List ℕ) (s : Bytes)
    → at_segment_end s ≡ true
    → AreNodeNames (segments cur (runes 0 s))
    → IsNodeName cur
unfolding segments runes at_segment_end decode_rune
segments-end cur [] e h = h.0
segments-end cur (b ∷ s) e h =
    (subst (λ x. AreNodeNames (segments cur (runes 0 (x ∷ s)))) ((==_iff b slash).0 e) h).0
