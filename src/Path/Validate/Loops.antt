-- ===== src/Path/Validate/Loops.antt =====
-- The loop of ValidatePath (paths.go) over a whole path.
use mathlib.Core.Path.{subst}
use curator_go.Base.{
  ℕ, zero, suc, ◌+◌, ◌-◌, ◌<◌, ◌≡◌, refl, sym, ◌∙◌, ◌≢◌, false, none, List, [], ◌∷◌, ◌++◌, arith,
  ◌==◌, ==_iff, Bytes, Bool-cases, inl, inr, has_suffix, bytes_eq,
}
use curator_go.Path.{slash, path_separator}
use curator_go.Path.Validate.{decode_rune, at_segment_end, validate_from}
use curator_go.Path.Validate.Decode.{Continues, IsDecoded, decode_rune-IsDecoded}
use curator_go.Path.Validate.Segments.{
  runes, segments, AllValid, AreNodeNames, segments-slash, segments-other,
}
use curator_go.Path.Validate.Modes.{inside, Mode, Fits-IsNodeName}
use curator_go.Path.Validate.Rounds.{
  Pending, Pending-skip, Ends, Ends-next, first_error-none, validate_from-step, round_sound,
  round_complete,
}

-- Soundness of the loop: where it finds no error, the segments are node names.
pub validate_from_sound :
    (s : Bytes) (k : ℕ) (m : Mode) (cur seen : Bytes) (i lastc : ℕ)
    → Pending k m cur seen lastc s
    → Ends cur s
    → AllValid cur
    → 0 < i
    → validate_from k seen i lastc s ≡ none
    → AreNodeNames (segments cur (runes k s))
unfolding runes segments validate_from at_segment_end
validate_from_sound [] zero m cur seen i lastc p t v pos e =
    (Fits-IsNodeName m cur seen lastc [] p refl v t, tt)
validate_from_sound [] (suc k) m cur seen i lastc p t v pos e = absurd p.0
validate_from_sound (b ∷ s) (suc k) m cur seen i lastc p t v pos e =
    validate_from_sound s k inside cur (b ∷ seen) (i + 1) lastc
      (Pending-skip k m cur seen lastc b s p) (Ends-next cur cur b s t (λ _. p.2.0)) v (omega arith)
      e
validate_from_sound (b ∷ s) zero m cur seen i lastc p t v pos e =
    let (passed, later) =
      first_error-none _ _ (sym (validate_from-step seen i lastc b s pos) ∙ e) in
    round_sound m cur seen i lastc b (decode_rune b s).0 ((decode_rune b s).1 - 1) s
      (decode_rune-IsDecoded b s) p t v passed
      (λ m' cur' p' t' v'.
        validate_from_sound s ((decode_rune b s).1 - 1) m' cur' (b ∷ seen) (i + 1)
          (decode_rune b s).0 p' t' v' (omega arith) later)

-- Completeness of the loop: it finds no error in node names.
pub validate_from_complete :
    (s : Bytes) (k : ℕ) (m : Mode) (cur seen : Bytes) (i lastc : ℕ)
    → Pending k m cur seen lastc s
    → 0 < i
    → AreNodeNames (segments cur (runes k s))
    → validate_from k seen i lastc s ≡ none
unfolding runes validate_from
validate_from_complete [] k m cur seen i lastc p pos names = refl
validate_from_complete (b ∷ s) (suc k) m cur seen i lastc p pos names =
    validate_from_complete s k inside cur (b ∷ seen) (i + 1) lastc
      (Pending-skip k m cur seen lastc b s p) (omega arith) names
validate_from_complete (b ∷ s) zero m cur seen i lastc p pos names =
    validate_from-step seen i lastc b s pos
    ∙ round_complete m cur seen i lastc b (decode_rune b s).0 ((decode_rune b s).1 - 1) s _
        (decode_rune-IsDecoded b s) p names
        (λ m' cur' p' names'.
          validate_from_complete s ((decode_rune b s).1 - 1) m' cur' (b ∷ seen) (i + 1)
            (decode_rune b s).0 p' (omega arith) names')

pub suffix_round :
    (b c k : ℕ) (s : Bytes) (cur : List ℕ)
    → IsDecoded b s c k
    → AreNodeNames (segments cur (c ∷ runes k s))
    → ((cur' : List ℕ)
        → AreNodeNames (segments cur' (runes k s))
        → has_suffix s path_separator ≡ false)
    → has_suffix (b ∷ s) path_separator ≡ false
unfolding has_suffix runes segments
suffix_round b c k s cur d names rest = elim (Bool-cases (c == slash)) [
  | inl cs ↦
      let cut =
        subst AreNodeNames (segments-slash cur (runes k s)) (rw ((==_iff c slash).0 cs) at names) in
      ground (arith, rest [] cut.1, goes_on s cut.1)
  | inr cs ↦
      let off_slash : c ≢ slash = ground arith in
      let go_on = subst AreNodeNames (segments-other cur c (runes k s) off_slash) names in
      let later = rest (cur ++ c ∷ []) go_on in ground arith
]
  where
    goes_on : (t : Bytes) → AreNodeNames (segments [] (runes k t)) → bytes_eq t [] ≡ false
    goes_on [] h = absurd (h.0.not_empty refl)
    goes_on (x ∷ t) h = refl

-- Node names do not end in a separator.
pub segments-has_suffix :
    (s : Bytes) (k : ℕ) (cur : List ℕ)
    → Continues k s
    → AreNodeNames (segments cur (runes k s))
    → has_suffix s path_separator ≡ false
unfolding runes has_suffix
segments-has_suffix [] k cur h names = refl
segments-has_suffix (b ∷ s) (suc k) cur h names =
    ground (arith, segments-has_suffix s k cur h.1 names)
segments-has_suffix (b ∷ s) zero cur h names =
    suffix_round b (decode_rune b s).0 ((decode_rune b s).1 - 1) s cur (decode_rune-IsDecoded b s)
      names
      (λ cur' names'.
        segments-has_suffix s ((decode_rune b s).1 - 1) cur' (decode_rune-IsDecoded b s).1 names')
