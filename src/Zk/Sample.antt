-- ===== src/Zk/Sample.antt =====
-- A small server (client.go) for the tests: its state is the list of the nodes that it has, and
-- only "/a" ever has a child to list, "b".
use curator_go.Base.{
  arith, Bool, true, false, none, some, List, [], ◌∷◌, ℕ, if◌then◌else◌, Bytes, bytes_eq, text, ◌≡◌,
  sym, ap, ◌∙◌, Bool-cases, inl, inr, bytes_eq_iff,
}
use curator_go.Errors.{zk, node_exists, no_node}
use curator_go.Zk.{Conn}

unfoldable pub has_node : Bytes → List Bytes → Bool
unfolding bytes_eq
has_node p [] = false
has_node p (q ∷ rest) = let later = has_node p rest in if bytes_eq p q then true else later

unfoldable pub remove_node : Bytes → List Bytes → List Bytes
unfolding bytes_eq
remove_node p [] = []
remove_node p (q ∷ rest) =
    let later = remove_node p rest in if bytes_eq p q then later else q ∷ later

unfoldable pub sample_children : Bytes → List Bytes
unfolding bytes_eq
sample_children p = if bytes_eq p (text "/a") then text "b" ∷ [] else []

abbrev pub server : Conn (List Bytes) ℕ ℕ
server = record {
  open_acl_unsafe = none;
  create = λ p payload flags acl s.
      if has_node p s then (([], some (zk node_exists)), s) else ((p, none), p ∷ s);
  exists = λ p s. ((has_node p s, none, none), s);
  exists_w = λ p s. ((has_node p s, none, some 1, none), s);
  delete = λ p version s. if has_node p s then (none, remove_node p s) else (some (zk no_node), s);
  get = λ p s. ((none, none, none), s);
  get_w = λ p s. ((none, none, some 1, none), s);
  set = λ p payload version s. ((none, none), s);
  children = λ p s. ((some (sample_children p), none, none), s);
  children_w = λ p s. ((some (sample_children p), none, some 1, none), s);
  get_acl = λ p s. ((none, none, none), s);
  set_acl = λ p acl version s. ((none, none), s);
  multi = λ requests s. ((none, none), s);
  sync = λ p s. ((p, none), s);
}

pub remove_node-other :
    (p q : Bytes) (s : List Bytes)
    → bytes_eq p q ≡ false
    → has_node p s ≡ true
    → has_node p (remove_node q s) ≡ true
unfolding has_node remove_node
remove_node-other p q [] h k = k
remove_node-other p q (x ∷ s) h k = elim (Bool-cases (bytes_eq q x)) [
  | inl same ↦
      let e : q ≡ x = (bytes_eq_iff q x).0 same in
      let other : bytes_eq p x ≡ false = ap (bytes_eq p) (sym e) ∙ h in
      ground (arith, remove_node-other p q s h)
  | inr differs ↦ ground (arith, remove_node-other p q s h)
]
