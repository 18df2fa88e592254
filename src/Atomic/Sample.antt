-- ===== src/Atomic/Sample.antt =====
-- A small server for an atomic value (recipes/atomic.go): its state is the list of the data that
-- were written to the node, the newest first; the node is missing until the first.
use curator_go.Base.{
  ℕ, zero, suc, ◌≡◌, ◌≢◌, refl, ap, Bool, true, false, Option, none, some, List, [], ◌∷◌, ◌++◌,
  arith, length, ◌==◌, if◌then◌else◌, Bool-cases, inl, inr, ℤ, pos, negsuc,
}
use curator_go.Errors.{Err, zk, no_node, node_exists, bad_version}
use curator_go.Zk.{Slice, any_version}
use curator_go.Atomic.{NodeClient}
use curator_go.Atomic.History.{Content, Held, Wrote, Grows, Numbered, IsVersioned}

abbrev pub Node : Type 0
Node = List (Slice ℕ)

abbrev names : ℤ → ℕ → Bool
names (pos k) n = k == n
names (negsuc zero) n = true
names (negsuc (suc k)) n = false

abbrev get_node : Node → (Slice ℕ × ℤ × Option Err) × Node
get_node [] = ((none, pos 0, some (zk no_node)), [])
get_node (d ∷ rest) = ((d, pos (length rest), none), d ∷ rest)

abbrev set_node : ℤ → Slice ℕ → Node → Option Err × Node
set_node version new [] = (some (zk no_node), [])
set_node version new (d ∷ rest) =
    if names version (length rest)
    then (none, new ∷ d ∷ rest)
    else (some (zk bad_version), d ∷ rest)

abbrev create_node : Slice ℕ → Node → Option Err × Node
create_node new [] = (none, new ∷ [])
create_node new (d ∷ rest) = (some (zk node_exists), d ∷ rest)

abbrev pub node : NodeClient Node
node = record {
  get_data = get_node;
  set_data = set_node;
  create = create_node;
  create_default = create_node none;
  since = λ start s. pos 0;
  now = λ s. 0;
  sleeper = λ time s. (none, s);
}

-- The history of the node: the versions count the writes.
abbrev pub contents : Node → List Content
contents [] = none ∷ []
contents (d ∷ rest) = some (d, length rest) ∷ contents rest

node-Numbered : (s : Node) → Numbered (contents s)
node-Numbered [] = (tt, tt)
node-Numbered (d ∷ []) = (tt, (tt, tt))
node-Numbered (d ∷ (d' ∷ rest)) = (omega arith, node-Numbered (d' ∷ rest))

names-version :
    (version : ℤ) (n : ℕ) → names version n ≡ true → version ≢ any_version → version ≡ pos n
names-version (pos k) n e h = ap pos (ground arith)
names-version (negsuc zero) n e h = absurd (h refl)
names-version (negsuc (suc k)) n e h = absurd cc

node_reads :
    (s : Node)
    → (get_node s).0.2 ≡ none
    → (number : ℕ) × ((get_node s).0.1 ≡ pos number)
      × Held (some ((get_node s).0.0, number)) (contents (get_node s).1)
node_reads [] fine = absurd cc
node_reads (d ∷ rest) fine = (length rest, refl, ([], contents rest, refl))

node_writes :
    (version : ℤ) (new : Slice ℕ) (s : Node)
    → (set_node version new s).0 ≡ none
    → (before : Slice ℕ × ℕ) × (version ≢ any_version → version ≡ pos before.1)
      × (later : List Content) × (number : ℕ) × (earlier : List Content) × (contents
            (set_node version new s).1
          ≡ later ++ some (new, number) ∷ some before ∷ earlier)
      × Grows (contents s) (some before ∷ earlier)
node_writes version new [] fine = absurd cc
node_writes version new (d ∷ rest) fine = elim (Bool-cases (names version (length rest))) [
  | inl named ↦ (
    (d, length rest),
    names-version version (length rest) named,
    [],
    suc (length rest),
    contents rest,
    rw named refl,
    ([], refl),
  )
  | inr refused ↦ absurd (ground arith)
]

node_creates :
    (new : Slice ℕ) (s : Node)
    → (create_node new s).0 ≡ none
    → Wrote none new (contents (create_node new s).1)
node_creates new [] fine = ([], 0, [], refl)
node_creates new (d ∷ rest) fine = absurd cc

pub node-IsVersioned : IsVersioned node contents
node-IsVersioned = record {
  reads = node_reads;
  writes = node_writes;
  creates = node_creates;
  numbered = node-Numbered;
}
