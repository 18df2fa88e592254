-- ===== src/Listeners.antt =====
-- listener.go and watcher.go: the containers of listeners and of watchers, which are told apart by
-- numbers. A list is what the container holds; `none` is a nil pointer to a container.
pub mod Laws
use curator_go.Base.{
  ℕ, zero, suc, ◌+◌, Bool, true, false, Option, none, some, List, [], ◌∷◌, ◌++◌, ◌==◌,
  if◌then◌else◌, length,
}

-- The list without the first occurrence of an element.
unfoldable pub remove_first : ℕ → List ℕ → List ℕ
remove_first x [] = []
remove_first x (y ∷ rest) = let later = y ∷ remove_first x rest in if y == x then rest else later

-- ListenerContainer.
abbrev pub Container : Type 0
Container = Option (List ℕ)

unfoldable pub add : ℕ → Container → Container
add listener none = none
add listener (some listeners) = some (listeners ++ listener ∷ [])

unfoldable pub remove : ℕ → Container → Container
unfolding remove_first
remove listener none = none
remove listener (some listeners) = some (remove_first listener listeners)

pub len : Container → ℕ
len none = 0
len (some listeners) = length listeners

unfoldable pub clear : Container → Container
clear none = none
clear (some listeners) = some []

-- ForEach, with a callback that changes the state of the world.
unfoldable pub visit : {S : Type 0} → (ℕ → S → S) → List ℕ → S → S
visit callback [] s = s
visit callback (listener ∷ rest) s = visit callback rest (callback listener s)

unfoldable pub for_each : {S : Type 0} → (ℕ → S → S) → Container → S → S
unfolding visit
for_each callback none s = s
for_each callback (some listeners) s = visit callback listeners s

-- Watchers.
pub add_watcher : ℕ → List ℕ → List ℕ × ℕ
add_watcher watcher watchers = (watchers ++ watcher ∷ [], watcher)

abbrev pub contains : ℕ → List ℕ → Bool
contains x [] = false
contains x (y ∷ rest) = let later = contains x rest in if y == x then true else later

-- Remove returns the watcher, or nil.
pub remove_watcher : ℕ → List ℕ → List ℕ × Option ℕ
unfolding remove_first
remove_watcher watcher watchers =
    (remove_first watcher watchers, if contains watcher watchers then some watcher else none)
