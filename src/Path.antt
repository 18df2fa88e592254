-- ===== src/Path.antt =====
-- paths.go: node names, splitting, joining and validating znode paths. A Go string is its list of
-- bytes; a `range` over a string decodes UTF-8, as `decode_rune` does.
pub mod Names
pub mod Validate
pub mod Dirs
mod Tests
use curator_go.Base.{
  ℕ, zero, suc, ◌+◌, ◌-◌, ◌*◌, Bool, true, false, ◌&&◌, ◌||◌, Option, none, some, List, [], ◌∷◌,
  ◌++◌, ltb, leb, ◌==◌, if◌then◌else◌, length, take, drop, Bytes, bytes_eq, has_prefix, has_suffix,
  last_index, drop_last,
}
use curator_go.Errors.{
  PathError, null_path, no_leading_slash, trailing_slash, null_character, empty_node, relative_path,
  invalid_character,
}

abbrev pub slash : ℕ
slash = b'/'

abbrev pub dot : ℕ
dot = b'.'

abbrev pub path_separator : Bytes
path_separator = slash ∷ []

pub record PathAndNode : Type 0 where
  pub path : Bytes
  pub node : Bytes

unfoldable pub get_node_from_path : Bytes → Bytes
unfolding last_index
get_node_from_path path = elim (last_index path path_separator) [
  | none ↦ path
  | some idx ↦ if leb (length path) (idx + 1) then [] else drop (idx + 1) path
]

-- The error of SplitPath is nil on every branch.
pub split_path : Bytes → PathAndNode
unfolding last_index
split_path path = elim (last_index path path_separator) [
  | none ↦ record { path = path; node = [] }
  | some idx ↦
      if ltb 0 idx
      then record { path = take idx path; node = drop (idx + 1) path }
      else record { path = path_separator; node = drop (idx + 1) path }
]

-- What JoinPath writes for the parent.
unfoldable pub join_parent : Bytes → Bytes
unfolding has_prefix has_suffix drop_last
join_parent [] = []
join_parent parent =
    (if has_prefix parent path_separator then [] else path_separator)
    ++ (if has_suffix parent path_separator then drop_last parent else parent)

-- A child without the separators at its two ends.
pub trim_child : Bytes → Bytes
unfolding has_prefix has_suffix drop_last
trim_child child =
    let tail = if has_prefix child path_separator then drop 1 child else child in
    if has_suffix tail path_separator then drop_last tail else tail

-- One round of the loop over the children; `path` is the buffer.
unfoldable pub join_child : Bytes → Bytes → Bytes
unfolding trim_child bytes_eq
join_child path child =
    if length child == 0 || bytes_eq child path_separator
    then (if length path == 0 then path ++ path_separator else path)
    else path ++ slash ∷ trim_child child

join_children : Bytes → List Bytes → Bytes
join_children path [] = path
join_children path (child ∷ rest) = join_children (join_child path child) rest

unfoldable pub join_path : Bytes → List Bytes → Bytes
unfolding join_parent join_children join_child
join_path parent children = join_children (join_parent parent) children
