-- ===== src/Path/Dirs/SubPaths.antt =====
-- The sub-paths that the loop of MakeDirs (paths.go) cuts.
use native.Mathlib.Numerals.{add-one}
use curator_go.Base.{
  ℕ, suc, ◌+◌, ◌≡◌, refl, ◌≢◌, Bool, none, some, [], ◌∷◌, ◌++◌, arith, if◌then◌else◌, length, drop,
  length-append, Bytes, index,
}
use curator_go.Path.{slash, path_separator}
use curator_go.Path.Names.{NoSlash}
use curator_go.Path.Dirs.{next_pos, round_end}

pub index-NoSlash : (n : Bytes) → NoSlash n → index n path_separator ≡ none
unfolding index
index-NoSlash [] h = refl
index-NoSlash (c ∷ n) (p, h) = ground (arith, index-NoSlash n h)

pub index-slash :
    (n r : Bytes) → NoSlash n → index (n ++ slash ∷ r) path_separator ≡ some (length n)
unfolding index
index-slash [] r h = refl
index-slash (c ∷ n) r (p, h) = ground (arith, index-slash n r h)

pub drop-base : (base : Bytes) (r : Bytes) → drop (length base + 1) (base ++ slash ∷ r) ≡ r
drop-base base r = rw add-one (go base)
  where
    go : (q : Bytes) → drop (suc (length q)) (q ++ slash ∷ r) ≡ r
    go [] = refl
    go (x ∷ q) = go q

pub next_pos-middle :
    (base n r : Bytes) (make_last : Bool)
    → NoSlash n
    → next_pos (base ++ (slash ∷ n ++ slash ∷ r)) make_last (length base)
      ≡ some (length base + length n + 1)
unfolding next_pos
next_pos-middle base n r make_last h =
    rw (drop-base base (n ++ slash ∷ r), next_pos) (rw (index-slash n r h))

pub next_pos-last :
    (base n : Bytes) (make_last : Bool)
    → NoSlash n
    → next_pos (base ++ slash ∷ n) make_last (length base)
      ≡ (if make_last then some (length (base ++ slash ∷ n)) else none)
unfolding next_pos
next_pos-last base n make_last h = rw (drop-base base n, next_pos) (rw (index-NoSlash n h))

pub round_end-middle :
    (base n r : Bytes) (make_last : Bool)
    → NoSlash n
    → round_end (base ++ (slash ∷ n ++ slash ∷ r)) make_last (length base)
      ≡ some (length (base ++ slash ∷ n))
unfolding round_end
round_end-middle base n r make_last h =
    rw (next_pos-middle base n r make_last h, round_end)
      (ground (arith, length-append base (slash ∷ n ++ slash ∷ r), length-append base (slash ∷ n)))

pub round_end-last :
    (base n : Bytes) (make_last : Bool)
    → NoSlash n
    → round_end (base ++ slash ∷ n) make_last (length base)
      ≡ (if make_last then some (length (base ++ slash ∷ n)) else none)
unfolding round_end
round_end-last base n make_last h =
    rw (next_pos-last base n make_last h, round_end)
      (ground (arith, length-append base (slash ∷ n)))

pub round_end-full :
    (path : Bytes) (make_last : Bool) → round_end path make_last (length path) ≡ none
unfolding round_end
round_end-full path make_last = ground arith

-- The first round starts behind the first separator, and finds the same end as from it.
pub round_end-first :
    (c : ℕ) (r : Bytes) (make_last : Bool)
    → c ≢ slash
    → round_end (slash ∷ c ∷ r) make_last 1 ≡ round_end (slash ∷ c ∷ r) make_last 0
unfolding round_end next_pos index
round_end-first c r make_last h = ground arith
