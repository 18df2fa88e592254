-- ===== src/Path/Validate/Modes.antt =====
-- How the tests of ValidatePath (paths.go) follow the segment that the loop reads.
use curator_go.Base.{
  ℕ, ◌≡◌, refl, ◌≢◌, true, false, none, List, [], ◌∷◌, ◌++◌, arith, ◌==◌, if◌then◌else◌, Bytes,
}
use curator_go.Path.{slash, dot}
use curator_go.Path.Validate.{
  is_invalid, at_segment_end, slash_before, slash_two_before, check_rune,
}
use curator_go.Path.Validate.Decode.{Starts}
use curator_go.Path.Validate.Segments.{AllValid, IsNodeName}

-- How far the current segment `cur` has come.
pub data Mode : Type 0 where
  start one_dot two_dots inside : Mode

-- What the loop's variables say of the current segment. A segment "." or ".." was let through
-- only if it goes on.
abbrev pub Fits : Mode → List ℕ → Bytes → ℕ → Bytes → Type 0
Fits start cur seen lastc s = (cur ≡ []) × (lastc ≡ slash) × (slash_before seen ≡ true)
Fits one_dot cur seen lastc s =
    (cur ≡ dot ∷ [])
    × (lastc ≡ dot)
    × (slash_before seen ≡ false)
    × (slash_two_before seen ≡ true)
    × (at_segment_end s ≡ false)
Fits two_dots cur seen lastc s =
    (cur ≡ dot ∷ dot ∷ [])
    × (lastc ≡ dot)
    × (slash_before seen ≡ false)
    × (slash_two_before seen ≡ false)
    × (at_segment_end s ≡ false)
Fits inside cur seen lastc s =
    (cur ≢ [])
    × (cur ≢ dot ∷ [])
    × (cur ≢ dot ∷ dot ∷ [])
    × (lastc ≢ slash)
    × (slash_before seen ≡ false)
    × (lastc ≡ dot → slash_two_before seen ≡ false)

-- The mode after a rune that is no separator, where the tests let it through.
unfoldable pub after : Mode → ℕ → Mode
after start c = if c == dot then one_dot else inside
after one_dot c = if c == dot then two_dots else inside
after two_dots c = inside
after inside c = inside

pub snoc-ne-nil : (cur : List ℕ) (c : ℕ) → cur ++ c ∷ [] ≢ []
snoc-ne-nil [] c e = cc
snoc-ne-nil (x ∷ cur) c e = cc

pub snoc-ne-dot : (cur : List ℕ) (c : ℕ) → cur ≢ [] → cur ++ c ∷ [] ≢ dot ∷ []
snoc-ne-dot [] c h e = absurd (h refl)
snoc-ne-dot (x ∷ []) c h e = cc
snoc-ne-dot (x ∷ y ∷ cur) c h e = cc

pub snoc-ne-dots :
    (cur : List ℕ) (c : ℕ) → (cur ≡ dot ∷ [] → c ≢ dot) → cur ++ c ∷ [] ≢ dot ∷ dot ∷ []
snoc-ne-dots [] c h e = cc
snoc-ne-dots (x ∷ []) c h e = ground arith
snoc-ne-dots (x ∷ y ∷ []) c h e = cc
snoc-ne-dots (x ∷ y ∷ z ∷ cur) c h e = cc

-- A rune that is no separator and passes the tests leads to the next mode.
pub check_rune-Fits :
    (m : Mode) (cur seen : Bytes) (i lastc b c : ℕ) (s : Bytes)
    → Fits m cur seen lastc (b ∷ s)
    → Starts b c
    → c ≢ slash
    → check_rune seen i lastc c s ≡ none
    → Fits (after m c) (cur ++ c ∷ []) (b ∷ seen) c s × (is_invalid c ≡ false)
unfolding check_rune after
check_rune-Fits start cur seen i lastc b c s f st h e =
    ground (arith, snoc-ne-nil cur c, snoc-ne-dot cur c, snoc-ne-dots cur c)
check_rune-Fits one_dot cur seen i lastc b c s f st h e =
    ground (arith, snoc-ne-nil cur c, snoc-ne-dot cur c, snoc-ne-dots cur c)
check_rune-Fits two_dots cur seen i lastc b c s f st h e =
    ground (arith, snoc-ne-nil cur c, snoc-ne-dot cur c, snoc-ne-dots cur c)
check_rune-Fits inside cur seen i lastc b c s f st h e =
    ground (arith, snoc-ne-nil cur c, snoc-ne-dot cur c, snoc-ne-dots cur c)

-- The converse: the tests let a rune through that the specification allows.
pub check_rune-passes :
    (m : Mode) (cur seen : Bytes) (i lastc b c : ℕ) (s : Bytes)
    → Fits m cur seen lastc (b ∷ s)
    → c ≢ slash
    → is_invalid c ≡ false
    → (at_segment_end s ≡ true → (cur ++ c ∷ [] ≢ dot ∷ []) × (cur ++ c ∷ [] ≢ dot ∷ dot ∷ []))
    → check_rune seen i lastc c s ≡ none
unfolding check_rune
check_rune-passes start cur seen i lastc b c s f h v e = ground arith
check_rune-passes one_dot cur seen i lastc b c s f h v e = ground arith
check_rune-passes two_dots cur seen i lastc b c s f h v e = ground arith
check_rune-passes inside cur seen i lastc b c s f h v e = ground arith

pub check_rune-slash :
    (seen : Bytes) (i lastc : ℕ) (s : Bytes)
    → lastc ≢ slash
    → check_rune seen i lastc slash s ≡ none
unfolding check_rune
check_rune-slash seen i lastc s h = ground arith

pub check_rune-slash_start :
    (seen : Bytes) (i : ℕ) (s : Bytes) → check_rune seen i slash slash s ≢ none
unfolding check_rune
check_rune-slash_start seen i s = ground arith

-- A segment at whose end a separator stands is a name, unless it is empty.
pub Fits-IsNodeName :
    (m : Mode) (cur seen : Bytes) (lastc : ℕ) (s : Bytes)
    → Fits m cur seen lastc s
    → at_segment_end s ≡ true
    → AllValid cur
    → cur ≢ []
    → IsNodeName cur
Fits-IsNodeName start cur seen lastc s f e v h = absurd (h f.0)
Fits-IsNodeName one_dot cur seen lastc s f e v h = cc
Fits-IsNodeName two_dots cur seen lastc s f e v h = cc
Fits-IsNodeName inside cur seen lastc s f e v h = record {
  not_empty = f.0;
  not_dot = f.1;
  not_dots = f.2;
  valid = v;
}
