-- ===== src/Listeners/Laws.antt =====
-- What adding and removing do to a container (listener.go, watcher.go).
use curator_go.Base.{
  ℕ, ◌+◌, ◌-◌, ◌≡◌, refl, true, false, none, some, List, [], ◌∷◌, ◌++◌, ◌==◌, if◌then◌else◌, arith,
  Bool-cases, inl, inr,
}
use curator_go.Listeners.{remove_first, Container, add, remove, contains, remove_watcher}

-- How often an element is in a list.
abbrev pub occurrences : ℕ → List ℕ → ℕ
occurrences l [] = 0
occurrences l (x ∷ rest) = let more = occurrences l rest in if l == x then more + 1 else more

abbrev pub members : Container → List ℕ
members none = []
members (some listeners) = listeners

abbrev same_or : ℕ → ℕ → List ℕ → ℕ
same_or x l ls = if l == x then occurrences l ls - 1 else occurrences l ls

remove_first-occurrences :
    (x l : ℕ) (ls : List ℕ) → occurrences l (remove_first x ls) ≡ same_or x l ls
unfolding remove_first
remove_first-occurrences x l [] = ground arith
remove_first-occurrences x l (y ∷ rest) = elim (Bool-cases (y == x)) [
  | inl found ↦ ground arith
  | inr other ↦ elim (Bool-cases (l == y)) [
    | inl mine ↦ ground (arith, remove_first-occurrences x l rest)
    | inr not_mine ↦ ground (arith, remove_first-occurrences x l rest)
  ]
]

occurrences-append :
    (l : ℕ) (ls ms : List ℕ) → occurrences l (ls ++ ms) ≡ occurrences l ls + occurrences l ms
occurrences-append l [] ms = omega arith
occurrences-append l (x ∷ ls) ms = elim (Bool-cases (l == x)) [
  | inl same ↦ ground (arith, occurrences-append l ls ms)
  | inr other ↦ ground (arith, occurrences-append l ls ms)
]

contains-occurrences :
    (w : ℕ) (ws : List ℕ) → contains w ws ≡ (if occurrences w ws == 0 then false else true)
contains-occurrences w [] = refl
contains-occurrences w (y ∷ rest) = elim (Bool-cases (w == y)) [
  | inl same ↦ ground (arith, contains-occurrences w rest)
  | inr other ↦ ground (arith, contains-occurrences w rest)
]

-- Removing what was added gives back what was there: a container, nil ones included, has every
-- listener as often as before.
pub remove-add :
    (x l : ℕ) (c : Container)
    → occurrences l (members (remove x (add x c))) ≡ occurrences l (members c)
unfolding remove add
remove-add x l none = refl
remove-add x l (some ls) =
    ground (arith, remove_first-occurrences x l (ls ++ x ∷ []), occurrences-append l ls (x ∷ []))

-- Watchers.Remove gives the watcher back exactly if it was there, and takes it out once: every
-- other watcher stays as often as before.
pub remove_watcher_lem :
    (w l : ℕ) (ws : List ℕ)
    → let (rest, found) = remove_watcher w ws in
      (found ≡ (if occurrences w ws == 0 then none else some w))
      × (occurrences l rest ≡ (if l == w then occurrences l ws - 1 else occurrences l ws))
unfolding remove_watcher
remove_watcher_lem w l ws =
    let there = contains-occurrences w ws in
    (ground (arith, there), remove_first-occurrences w l ws)
