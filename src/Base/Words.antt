-- ===== src/Base/Words.antt =====
-- Go strings: sequences of bytes, each a number below 256, and the functions of Go's `strings`
-- and `bytes` packages that the program uses.
use Prim.Native.Nat.{ℕ, suc, ◌-◌}
use Prim.Native.Char.{code}
use Prim.Native.String.{String}
use mathlib.Core.Bool.{Bool, true, false, ◌&&◌, ◌||◌}
use mathlib.Core.Option.{Option, none, some}
use mathlib.Core.List.{List, [], ◌∷◌}
use curator_go.Base.Tests.{◌==◌, if◌then◌else◌}
use curator_go.Base.Lists.{length, take}

abbrev pub Bytes : Type 0
Bytes = List ℕ

-- The bytes of an ASCII text.
abbrev pub text : String → Bytes
text String.[] = []
text (String.◌∷◌ c s) = code c ∷ text s

-- The comparison `s == t` of two strings, and `bytes.Equal`.
unfoldable pub bytes_eq : Bytes → Bytes → Bool
bytes_eq [] [] = true
bytes_eq [] (d ∷ t) = false
bytes_eq (c ∷ s) [] = false
bytes_eq (c ∷ s) (d ∷ t) = (c == d) && bytes_eq s t

-- `strings.HasPrefix`.
unfoldable pub has_prefix : Bytes → Bytes → Bool
has_prefix s [] = true
has_prefix [] (c ∷ p) = false
has_prefix (d ∷ s) (c ∷ p) = (d == c) && has_prefix s p

-- `strings.HasSuffix`.
unfoldable pub has_suffix : Bytes → Bytes → Bool
unfolding bytes_eq
has_suffix [] p = bytes_eq [] p
has_suffix (c ∷ s) p = bytes_eq (c ∷ s) p || has_suffix s p

-- `strings.Index`; the result -1 is `none`.
unfoldable pub index : Bytes → Bytes → Option ℕ
unfolding has_prefix
index [] sep = if has_prefix [] sep then some 0 else none
index (c ∷ s) sep =
    let later : Option ℕ = elim (index s sep) [ none ↦ none | some i ↦ some (suc i) ] in
    if has_prefix (c ∷ s) sep then some 0 else later

-- `strings.LastIndex`; the result -1 is `none`.
unfoldable pub last_index : Bytes → Bytes → Option ℕ
unfolding has_prefix
last_index [] sep = if has_prefix [] sep then some 0 else none
last_index (c ∷ s) sep = elim (last_index s sep) [
  | some i ↦ some (suc i)
  | none ↦ if has_prefix (c ∷ s) sep then some 0 else none
]

-- `s[:len(s)-1]` of a string that is not empty.
unfoldable pub drop_last : Bytes → Bytes
drop_last s = take (length s - 1) s
