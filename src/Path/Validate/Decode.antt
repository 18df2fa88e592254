-- ===== src/Path/Validate/Decode.antt =====
-- What the decoder of a `range` over a string does at ASCII bytes and elsewhere.
use curator_go.Base.{
  ℕ, zero, suc, ◌-◌, ◌≤◌, ◌≡◌, refl, ◌⊎◌, inl, inr, ◌<◌, ltb, Bool-cases, [], ◌∷◌, arith, Bytes,
}
use curator_go.Path.Validate.{decode_rune, decode_two, decode_three, decode_four}

-- The first `k` bytes are there and are not ASCII.
abbrev pub Continues : ℕ → Bytes → Type 0
Continues zero s = Unit
Continues (suc k) [] = ⊥
Continues (suc k) (b ∷ s) = (0x80 ≤ b) × Continues k s

abbrev pub IsWide : Bytes → ℕ × ℕ → Type 0
IsWide s r = (0x80 ≤ r.0) × Continues (r.1 - 1) s

decode_two-IsWide : (b : ℕ) (s : Bytes) → 0xc2 ≤ b → IsWide s (decode_two b s)
unfolding decode_rune
decode_two-IsWide b [] h = omega arith
decode_two-IsWide b (c ∷ s) h = ground arith

decode_three-IsWide : (b : ℕ) (s : Bytes) → 0xe0 ≤ b → IsWide s (decode_three b s)
unfolding decode_rune
decode_three-IsWide b [] h = omega arith
decode_three-IsWide b (c ∷ []) h = omega arith
decode_three-IsWide b (c ∷ d ∷ s) h = ground arith

decode_four-IsWide : (b : ℕ) (s : Bytes) → 0xf0 ≤ b → IsWide s (decode_four b s)
unfolding decode_rune
decode_four-IsWide b [] h = omega arith
decode_four-IsWide b (c ∷ []) h = omega arith
decode_four-IsWide b (c ∷ d ∷ []) h = omega arith
decode_four-IsWide b (c ∷ d ∷ e ∷ s) h = ground arith

pub decode_rune-ascii : (b : ℕ) (s : Bytes) → b < 0x80 → decode_rune b s ≡ (b, 1)
unfolding decode_rune
decode_rune-ascii b s h = ground arith

pub decode_rune-IsWide : (b : ℕ) (s : Bytes) → 0x80 ≤ b → IsWide s (decode_rune b s)
unfolding decode_rune
decode_rune-IsWide b s h =
    ground (arith, decode_two-IsWide b s, decode_three-IsWide b s, decode_four-IsWide b s)

-- A byte `b` and the rune `c` that starts with it.
abbrev pub Starts : ℕ → ℕ → Type 0
Starts b c = (b ≡ c) ⊎ ((0x80 ≤ b) × (0x80 ≤ c))

-- `k` further bytes belong to the rune `c`.
abbrev pub IsDecoded : ℕ → Bytes → ℕ → ℕ → Type 0
IsDecoded b s c k = Starts b c × Continues k s × ((k ≡ 0) ⊎ (0x80 ≤ c))

pub decode_rune-IsDecoded :
    (b : ℕ) (s : Bytes) → IsDecoded b s (decode_rune b s).0 ((decode_rune b s).1 - 1)
decode_rune-IsDecoded b s = elim (Bool-cases (ltb b 0x80)) [
  | inl e ↦ rw (decode_rune-ascii b s (ground arith)) (inl refl, tt, inl refl)
  | inr e ↦
      let wide = decode_rune-IsWide b s (ground arith) in
      (inr (ground arith, wide.0), wide.1, inr wide.0)
]
