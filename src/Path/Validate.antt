-- ===== src/Path/Validate.antt =====
-- ValidatePath (paths.go) and what it uses of Go: the `range` over a string, which decodes UTF-8
-- and yields U+FFFD for one byte where that fails, and `unicode.In` over a table of ranges.
pub mod Decode
pub mod Segments
pub mod Modes
pub mod Rounds
pub mod Loops
pub mod Refines
use curator_go.Base.{
  ℕ, zero, suc, ◌+◌, ◌-◌, ◌*◌, Bool, true, false, ◌&&◌, ◌||◌, not, Option, none, some, List, [],
  ◌∷◌, ltb, leb, ◌==◌, if◌then◌else◌, length, Bytes, has_prefix, has_suffix,
}
use curator_go.Errors.{
  PathError, null_path, no_leading_slash, trailing_slash, null_character, empty_node, relative_path,
  invalid_character,
}
use curator_go.Path.{slash, dot, path_separator}

in_range : ℕ → ℕ → ℕ → Bool
in_range lo hi c = leb lo c && leb c hi

-- `unicode.In(c, invalidCharaters)`.
pub is_invalid : ℕ → Bool
unfolding in_range
is_invalid c =
    in_range 0x0000 0x001f c
    || in_range 0x007f 0x009f c
    || in_range 0xd800 0xf8ff c
    || in_range 0xfff0 0xffff c

abbrev rune_error : ℕ
rune_error = 0xfffd

abbrev invalid_byte : ℕ × ℕ
invalid_byte = (rune_error, 1)

-- The continuation bytes that the loop's decoder accepts after the lead byte: the least and the
-- greatest value of the second byte depend on the lead byte.
second_lo : ℕ → ℕ
second_lo b = if b == 0xe0 then 0xa0 else if b == 0xf0 then 0x90 else 0x80

second_hi : ℕ → ℕ
second_hi b = if b == 0xed then 0x9f else if b == 0xf4 then 0x8f else 0xbf

decode_two : ℕ → Bytes → ℕ × ℕ
decode_two b (c ∷ s) =
    if in_range 0x80 0xbf c then ((b - 0xc0) * 64 + (c - 0x80), 2) else invalid_byte
decode_two b [] = invalid_byte

decode_three : ℕ → Bytes → ℕ × ℕ
decode_three b (c ∷ d ∷ s) =
    if in_range (second_lo b) (second_hi b) c && in_range 0x80 0xbf d
    then ((b - 0xe0) * 4096 + (c - 0x80) * 64 + (d - 0x80), 3)
    else invalid_byte
decode_three b _ = invalid_byte

decode_four : ℕ → Bytes → ℕ × ℕ
decode_four b (c ∷ d ∷ e ∷ s) =
    if in_range (second_lo b) (second_hi b) c && in_range 0x80 0xbf d && in_range 0x80 0xbf e
    then ((b - 0xf0) * 262144 + (c - 0x80) * 4096 + (d - 0x80) * 64 + (e - 0x80), 4)
    else invalid_byte
decode_four b _ = invalid_byte

-- The rune that starts with the byte `b`, before the bytes `s`, and the number of its bytes.
unfoldable pub decode_rune : ℕ → Bytes → ℕ × ℕ
unfolding in_range second_lo second_hi decode_two decode_three decode_four
decode_rune b s =
    if ltb b 0x80
    then (b, 1)
    else if ltb b 0xc2
    then invalid_byte
    else if ltb b 0xe0
    then decode_two b s
    else if ltb b 0xf0
    then decode_three b s
    else if ltb b 0xf5
    then decode_four b s
    else invalid_byte

-- `i+1 == len(path) || path[i+1] == '/'`, where `after` is path[i+1:].
pub at_segment_end : Bytes → Bool
at_segment_end [] = true
at_segment_end (b ∷ s) = b == slash

-- `path[i-1] == '/'` and `path[i-2] == '/'`, where `seen` is path[:i] read backwards.
pub slash_before : Bytes → Bool
slash_before [] = false
slash_before (b ∷ s) = b == slash

pub slash_two_before : Bytes → Bool
unfolding slash_before
slash_two_before [] = false
slash_two_before (b ∷ s) = slash_before s

-- The tests of one round of the loop, at a byte offset `i` above 0.
unfoldable pub check_rune : Bytes → ℕ → ℕ → ℕ → Bytes → Option PathError
unfolding is_invalid at_segment_end slash_before slash_two_before
check_rune seen i lastc c after =
    if c == 0
    then some (null_character i)
    else if c == slash && lastc == slash
    then some (empty_node i)
    else if c == dot && lastc == dot
    then (if slash_two_before seen && at_segment_end after then some (relative_path i) else none)
    else if c == dot
    then (if slash_before seen && at_segment_end after then some (relative_path i) else none)
    else if is_invalid c
    then some (invalid_character i)
    else none

abbrev first_error : Option PathError → Option PathError → Option PathError
first_error (some e) later = some e
first_error none later = later

-- The loop, over the bytes path[i:]; `skip` bytes at their front belong to the rune before, and
-- `seen` is path[:i] read backwards. The round at offset 0 does nothing and keeps `lastc`.
unfoldable pub validate_from : ℕ → Bytes → ℕ → ℕ → Bytes → Option PathError
validate_from skip seen i lastc [] = none
validate_from (suc k) seen i lastc (b ∷ s) = validate_from k (b ∷ seen) (i + 1) lastc s
validate_from zero seen i lastc (b ∷ s) =
    let (c, width) = decode_rune b s in
    let later = validate_from (width - 1) (b ∷ seen) (i + 1) (if i == 0 then lastc else c) s in
    if i == 0 then later else first_error (check_rune seen i lastc c s) later

-- The error is `none` where the source returns nil.
unfoldable pub validate_path : Bytes → Option PathError
unfolding has_prefix has_suffix
validate_path path =
    if length path == 0
    then some null_path
    else if not (has_prefix path path_separator)
    then some no_leading_slash
    else if length path == 1
    then none
    else if has_suffix path path_separator
    then some trailing_slash
    else validate_from 0 [] 0 slash path
