-- ===== src/Namespace/Cache.antt =====
-- The cache of facades (namespace.go).
use curator_go.Base.{◌<◌, ◌≡◌, some, arith, Bytes, bytes_eq_iff, Option-cases, inl, inr, ap}
use curator_go.Namespace.{Facade, FacadeCache, find, get}

-- Every facade of the cache was made before, and no two entries have the same number.
pub record IsValid (c : FacadeCache) : Type 0 where
  pub made_before : (key : Bytes) (f : Facade) → find key c.cache ≡ some f → f.id < c.made
  pub apart :
      (k j : Bytes) (f g : Facade)
      → find k c.cache ≡ some f
      → find j c.cache ≡ some g
      → f.id ≡ g.id
      → k ≡ j

get-IsValid : (c : FacadeCache) (key : Bytes) → IsValid c → IsValid (get c key).0
unfolding get find
get-IsValid c key v = elim (Option-cases (find key c.cache)) [
  | inl missing ↦ record {
    made_before = λ j f e. ground (arith, v.made_before j f);
    apart = λ k j f g e d same. ground (
      arith,
      v.made_before k f,
      v.made_before j g,
      v.apart k j f g,
      bytes_eq_iff key k,
      bytes_eq_iff key j,
    );
  }
  | inr (old, found) ↦ record {
    made_before = λ j f e. ground (arith, v.made_before j f);
    apart = λ k j f g e d same. ground (arith, v.apart k j f g);
  }
]

-- What a request leaves: the facade is found, and nothing found before is lost.
get-found : (c : FacadeCache) (key : Bytes) → find key (get c key).0.cache ≡ some (get c key).1
unfolding get find
get-found c key = ground (arith, bytes_eq_iff key key)

get-keeps :
    (c : FacadeCache) (key other : Bytes) (f : Facade)
    → find key c.cache ≡ some f
    → find key (get c other).0.cache ≡ some f
unfolding get find
get-keeps c key other f e = ground (arith, bytes_eq_iff other key)

get_of_found :
    (c : FacadeCache) (key : Bytes) (f : Facade) → find key c.cache ≡ some f → get c key ≡ (c, f)
unfolding get
get_of_found c key f e = ground arith

-- A namespace gets one facade, which every later request for it gets again, whatever was asked
-- for in between; different namespaces get different facades, and the cache stays valid.
pub get_same :
    (c : FacadeCache) (key other : Bytes)
    → IsValid c
    → let (c1, f) = get c key in
      let (c2, g) = get c1 other in
      ((get c2 key).1 ≡ f) × ((get c2 key).0 ≡ c2) × (f.id ≡ g.id → key ≡ other) × IsValid c1
get_same c key other v =
    let c1 = (get c key).0 in
    let f = (get c key).1 in
    let c2 = (get c1 other).0 in
    let g = (get c1 other).1 in
    let kept = get-keeps c1 key other f (get-found c key) in
    let back = get_of_found c2 key f kept in
    let valid = get-IsValid c1 other (get-IsValid c key v) in
    (
      ap (λ r. r.1) back,
      ap (λ r. r.0) back,
      valid.apart key other f g kept (get-found c1 other),
      get-IsValid c key v,
    )
