-- ===== src/NodeCache/Told.antt =====
-- Which listeners of a node cache (recipes/cache.go) are told of new data.
use curator_go.Base.{
  ℕ, ◌≡◌, refl, ◌∙◌, Bool, Option, none, List, [], ◌∷◌, arith, Bool-cases, inl, inr,
}
use curator_go.Listeners.{add, for_each}
use curator_go.NodeCache.{
  CacheClient, NodeCache, ChildData, new_node_cache, add_listener, deep_equal, set_new_data,
}

-- Some calls of AddListener.
pub add_all : {T : Type 0} → List ℕ → NodeCache T → NodeCache T
add_all [] c = c
add_all (listener ∷ rest) c = add_all rest (add_listener listener c)

add_all-none :
    {T : Type 0} (ls : List ℕ) (c : NodeCache T)
    → c.listeners ≡ none
    → (add_all ls c).listeners ≡ none
unfolding add_all add_listener add
add_all-none [] c h = h
add_all-none (l ∷ ls) c h = add_all-none ls (add_listener l c) (ground arith)

module _ {S T : Type 0} (n : CacheClient S T) where
  -- What a cache holds after some new data.
  pub set_all : List (Option (ChildData T)) → NodeCache T → S → NodeCache T × S
  set_all [] c s = (c, s)
  set_all (d ∷ rest) c s = let (c1, s1) = set_new_data n d c s in set_all rest c1 s1

set_new_data-silent :
    {S T : Type 0} (n : CacheClient S T) (d : Option (ChildData T)) (c : NodeCache T) (s : S)
    → c.listeners ≡ none
    → ((set_new_data n d c s).1 ≡ s) × ((set_new_data n d c s).0.listeners ≡ none)
unfolding set_new_data for_each
set_new_data-silent n d c s h = elim (Bool-cases (deep_equal n c.child_data d)) [
  | inl same ↦ ground arith
  | inr other ↦ ground arith
]

set_all-silent :
    {S T : Type 0} (n : CacheClient S T) (ds : List (Option (ChildData T))) (c : NodeCache T)
    (s : S)
    → c.listeners ≡ none
    → (set_all n ds c s).1 ≡ s
unfolding set_all
set_all-silent n [] c s h = refl
set_all-silent n (d ∷ rest) c s h =
    let (c1, s1) = set_new_data n d c s in
    let (same, still) = set_new_data-silent n d c s h in set_all-silent n rest c1 s1 still ∙ same

-- No listener of a node cache is ever told: a new cache has a nil pointer for the container of its
-- listeners, to which AddListener adds nothing, so that whatever listeners are added and whatever
-- data come, the calls of the listeners change nothing of the world.
pub add_all-silent :
    {S T : Type 0} (n : CacheClient S T) (data_is_compressed : Bool) (ls : List ℕ)
    (ds : List (Option (ChildData T))) (s : S)
    → (set_all n ds (add_all ls (new_node_cache data_is_compressed)) s).1 ≡ s
unfolding new_node_cache
add_all-silent n data_is_compressed ls ds s =
    let new = new_node_cache data_is_compressed in
    set_all-silent n ds (add_all ls new) s (add_all-none ls new refl)
