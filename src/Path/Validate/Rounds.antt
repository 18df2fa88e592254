-- ===== src/Path/Validate/Rounds.antt =====
-- One round of the loop of ValidatePath (paths.go).
use mathlib.Core.Path.{subst}
use curator_go.Base.{
  ℕ, zero, suc, ◌+◌, ◌-◌, ◌≤◌, ◌<◌, ◌≡◌, refl, ◌≢◌, true, false, Option, none, List, [], ◌∷◌, ◌++◌,
  arith, ◌==◌, ==_iff, Bytes, Bool-cases, inl, inr, has_suffix,
}
use curator_go.Errors.{PathError}
use curator_go.Path.{slash, path_separator}
use curator_go.Path.Validate.{
  is_invalid, decode_rune, at_segment_end, slash_before, slash_two_before, check_rune,
  validate_from, first_error,
}
use curator_go.Path.Validate.Decode.{Continues, IsDecoded}
use curator_go.Path.Validate.Segments.{
  runes, segments, AllValid, AreNodeNames, AllValid-snoc, segments-slash, segments-other,
  segments-is_invalid, segments-end,
}
use curator_go.Path.Validate.Modes.{
  start, one_dot, two_dots, inside, Mode, Fits, after, snoc-ne-nil, check_rune-Fits,
  check_rune-passes, check_rune-slash, check_rune-slash_start, Fits-IsNodeName,
}

-- What holds before a round, where `k` bytes of the rune before are left to skip.
abbrev pub Pending : ℕ → Mode → List ℕ → Bytes → ℕ → Bytes → Type 0
Pending zero m cur seen lastc s = Fits m cur seen lastc s
Pending (suc k) m cur seen lastc s =
    Continues (suc k) s × (m ≡ inside) × Fits inside cur seen lastc s × (0x80 ≤ lastc)

pub Pending-skip :
    (k : ℕ) (m : Mode) (cur seen : Bytes) (lastc b : ℕ) (s : Bytes)
    → Pending (suc k) m cur seen lastc (b ∷ s)
    → Pending k inside cur (b ∷ seen) lastc s
unfolding slash_before slash_two_before
Pending-skip zero m cur seen lastc b s (h, e, f, w) = ground arith
Pending-skip (suc k) m cur seen lastc b s (h, e, f, w) = (h.1, refl, ground arith, w)

pub after-wide : (m : Mode) (c : ℕ) → 0x80 ≤ c → after m c ≡ inside
unfolding after
after-wide start c h = ground arith
after-wide one_dot c h = ground arith
after-wide two_dots c h = refl
after-wide inside c h = refl

pub Pending-rune :
    (k : ℕ) (m : Mode) (cur seen : Bytes) (i lastc b c : ℕ) (s : Bytes)
    → IsDecoded b s c k
    → Fits m cur seen lastc (b ∷ s)
    → c ≢ slash
    → check_rune seen i lastc c s ≡ none
    → Pending k (after m c) (cur ++ c ∷ []) (b ∷ seen) c s × (is_invalid c ≡ false)
unfolding after
Pending-rune zero m cur seen i lastc b c s d f h e =
    check_rune-Fits m cur seen i lastc b c s f d.0 h e
Pending-rune (suc k) m cur seen i lastc b c s (st, more, wide) f h e =
    let big : 0x80 ≤ c = omega arith in
    let (fits, valid) = check_rune-Fits m cur seen i lastc b c s f st h e in
    let stays = after-wide m c big in
    let inner = subst (λ n. Fits n (cur ++ c ∷ []) (b ∷ seen) c s) stays fits in
    ((more, stays, inner, big), valid)

-- Nothing is left, or the string does not end in a separator.
abbrev pub Ends : List ℕ → Bytes → Type 0
Ends cur [] = cur ≢ []
Ends cur (b ∷ s) = has_suffix (b ∷ s) path_separator ≡ false

pub Ends-next :
    (cur next : List ℕ) (b : ℕ) (s : Bytes)
    → Ends cur (b ∷ s)
    → (b ≢ slash → next ≢ [])
    → Ends next s
unfolding has_suffix
Ends-next cur next b [] h k = ground arith
Ends-next cur next b (d ∷ s) h k = ground arith

pub first_error-none :
    (e later : Option PathError) → first_error e later ≡ none → (e ≡ none) × (later ≡ none)
first_error-none e later h = ground arith

pub validate_from-step :
    (seen : Bytes) (i lastc b : ℕ) (s : Bytes)
    → 0 < i
    → let c = (decode_rune b s).0 in
      validate_from 0 seen i lastc (b ∷ s)
      ≡ first_error
          (check_rune seen i lastc c s)
          (validate_from ((decode_rune b s).1 - 1) (b ∷ seen) (i + 1) c s)
unfolding validate_from
validate_from-step seen i lastc b s h = ground arith

-- A separator that passes the tests ends a segment that is not empty.
pub Fits-slash :
    (m : Mode) (cur seen : Bytes) (i lastc : ℕ) (s t : Bytes)
    → Fits m cur seen lastc t
    → check_rune seen i lastc slash s ≡ none
    → cur ≢ []
Fits-slash start cur seen i lastc s t f e = absurd (check_rune-slash_start seen i s (rw f.1 at e))
Fits-slash one_dot cur seen i lastc s t f e = rw f.0 (λ p. cc)
Fits-slash two_dots cur seen i lastc s t f e = rw f.0 (λ p. cc)
Fits-slash inside cur seen i lastc s t f e = f.0

pub Pending-slash :
    (k : ℕ) (b c : ℕ) (seen s : Bytes)
    → IsDecoded b s c k
    → c ≡ slash
    → Pending k start [] (b ∷ seen) c s × (b ≡ slash)
unfolding slash_before
Pending-slash zero b c seen s d e = ground arith
Pending-slash (suc k) b c seen s d e = absurd (omega arith)

-- One round, whatever the rest of the loop is.
pub round_sound :
    (m : Mode) (cur seen : Bytes) (i lastc b c k : ℕ) (s : Bytes)
    → IsDecoded b s c k
    → Fits m cur seen lastc (b ∷ s)
    → Ends cur (b ∷ s)
    → AllValid cur
    → check_rune seen i lastc c s ≡ none
    → ((m' : Mode) (cur' : List ℕ)
        → Pending k m' cur' (b ∷ seen) c s
        → Ends cur' s
        → AllValid cur'
        → AreNodeNames (segments cur' (runes k s)))
    → AreNodeNames (segments cur (c ∷ runes k s))
unfolding at_segment_end
round_sound m cur seen i lastc b c k s d f t v e rest = elim (Bool-cases (c == slash)) [
  | inl cs ↦
      let at_slash = (==_iff c slash).0 cs in
      let (pending, first) = Pending-slash k b c seen s d at_slash in
      let filled = Fits-slash m cur seen i lastc s (b ∷ s) f (rw at_slash at e) in
      let named = Fits-IsNodeName m cur seen lastc (b ∷ s) f (ground arith) v filled in
      rw at_slash (
        rw segments-slash
          (named, rest start [] pending (Ends-next cur [] b s t (λ off. absurd (off first))) tt))
  | inr cs ↦
      let off_slash : c ≢ slash = ground arith in
      let (pending, valid) = Pending-rune k m cur seen i lastc b c s d f off_slash e in
      rw (segments-other cur c (runes k s) off_slash) (
        rest (after m c) (cur ++ c ∷ []) pending
          (Ends-next cur (cur ++ c ∷ []) b s t (λ _. snoc-ne-nil cur c))
          (AllValid-snoc cur c v valid))
]

pub Fits-lastc :
    (m : Mode) (cur seen : Bytes) (lastc : ℕ) (s : Bytes)
    → Fits m cur seen lastc s
    → cur ≢ []
    → lastc ≢ slash
Fits-lastc start cur seen lastc s f h = absurd (h f.0)
Fits-lastc one_dot cur seen lastc s f h = rw f.1 (omega arith)
Fits-lastc two_dots cur seen lastc s f h = rw f.1 (omega arith)
Fits-lastc inside cur seen lastc s f h = f.3

pub Continues-end : (k : ℕ) (s : Bytes) → Continues k s → at_segment_end s ≡ true → k ≡ 0
unfolding at_segment_end
Continues-end zero s h e = refl
Continues-end (suc k) [] h e = absurd h
Continues-end (suc k) (b ∷ s) h e = absurd (ground arith)

pub round_complete :
    (m : Mode) (cur seen : Bytes) (i lastc b c k : ℕ) (s : Bytes) (later : Option PathError)
    → IsDecoded b s c k
    → Fits m cur seen lastc (b ∷ s)
    → AreNodeNames (segments cur (c ∷ runes k s))
    → ((m' : Mode) (cur' : List ℕ)
        → Pending k m' cur' (b ∷ seen) c s
        → AreNodeNames (segments cur' (runes k s))
        → later ≡ none)
    → first_error (check_rune seen i lastc c s) later ≡ none
round_complete m cur seen i lastc b c k s later d f names rest = elim (Bool-cases (c == slash)) [
  | inl cs ↦
      let at_slash = (==_iff c slash).0 cs in
      let (pending, first) = Pending-slash k b c seen s d at_slash in
      let cut = subst AreNodeNames (segments-slash cur (runes k s)) (rw at_slash at names) in
      let moved = Fits-lastc m cur seen lastc (b ∷ s) f (cut.0).not_empty in
      rw at_slash (rw (check_rune-slash seen i lastc s moved) (rest start [] pending cut.1))
  | inr cs ↦
      let off_slash : c ≢ slash = ground arith in
      let go_on = subst AreNodeNames (segments-other cur c (runes k s) off_slash) names in
      let valid = segments-is_invalid cur c (runes k s) go_on in
      let passed = check_rune-passes m cur seen i lastc b c s f off_slash valid (λ e.
        let none_left = Continues-end k s d.1 e in
        let name =
          segments-end (cur ++ c ∷ []) s e
            (subst (λ n. AreNodeNames (segments (cur ++ c ∷ []) (runes n s))) none_left go_on) in
        (name.not_dot, name.not_dots)) in
      let (pending, _) = Pending-rune k m cur seen i lastc b c s d f off_slash passed in
      rw passed (rest (after m c) (cur ++ c ∷ []) pending go_on)
]
