-- ===== src/Atomic/Tries.antt =====
-- One try of an atomic value (recipes/atomic.go), in the three ways that it goes.
use curator_go.Base.{
  ℕ, ◌≡◌, refl, ap, ◌∙◌, Bool, true, false, Option, none, some, arith, Option-cases, Bool-cases,
  inl, inr,
}
use curator_go.Errors.{Err, is_no_node}
use curator_go.Zk.{Slice}
use curator_go.Atomic.{
  DistributedAtomicValue, MutableAtomicValue, is_conflict, current_value, try_once, tried,
}

module _ {S : Type 0} (v : DistributedAtomicValue S) where
  pub try_once-read :
      (r : MutableAtomicValue) (new : Slice ℕ) (s : S)
      → (v.client.get_data s).0.2 ≡ none
      → let ((read, version, err), s1) = v.client.get_data s in
        let (set, s2) = v.client.set_data version new s1 in
        try_once v r new s ≡ (tried v set new (record r { pre_value = read }), s2)
  unfolding try_once current_value
  try_once-read r new s fine = ground arith

  pub try_once-missing :
      (r : MutableAtomicValue) (new : Slice ℕ) (s : S) (e : Err)
      → (v.client.get_data s).0.2 ≡ some e
      → is_no_node e ≡ true
      → let (created, s2) = v.client.create new (v.client.get_data s).1 in
        try_once v r new s ≡ (tried v created new (record r { pre_value = none }), s2)
  unfolding try_once current_value
  try_once-missing r new s e failed missing = ground arith

  pub try_once-fails :
      (r : MutableAtomicValue) (new : Slice ℕ) (s : S) (e : Err)
      → (v.client.get_data s).0.2 ≡ some e
      → is_no_node e ≡ false
      → try_once v r new s ≡ ((false, some e, r), (v.client.get_data s).1)
  unfolding try_once current_value
  try_once-fails r new s e failed is_other = ground arith

  tried-succeeded :
      (wrote : Option Err) (new : Slice ℕ) (r : MutableAtomicValue)
      → (tried v wrote new r).2.succeeded ≡ r.succeeded
  tried-succeeded none new r = refl
  tried-succeeded (some e) new r = elim (Bool-cases (is_conflict e)) [
    | inl conflict ↦ rw conflict refl
    | inr is_other ↦ rw is_other refl
  ]

  succ_of :
      {a b : (Bool × Option Err × MutableAtomicValue) × S}
      → a ≡ b
      → a.0.2.succeeded ≡ b.0.2.succeeded
  succ_of e = ap (λ (x : (Bool × Option Err × MutableAtomicValue) × S). x.0.2.succeeded) e

  -- A try leaves it to the loop to report success.
  pub try_once-succeeded :
      (r : MutableAtomicValue) (new : Slice ℕ) (s : S)
      → (try_once v r new s).0.2.succeeded ≡ r.succeeded
  try_once-succeeded r new s =
      let ((read, version, err), s1) = v.client.get_data s in
      elim (Option-cases (v.client.get_data s).0.2) [
        | inl fine ↦
            succ_of (try_once-read r new s fine)
            ∙ tried-succeeded (v.client.set_data version new s1).0 new
                (record r { pre_value = read })
        | inr (e, failed) ↦ elim (Bool-cases (is_no_node e)) [
          | inl missing ↦
              succ_of (try_once-missing r new s e failed missing)
              ∙ tried-succeeded (v.client.create new s1).0 new (record r { pre_value = none })
          | inr is_other ↦ succ_of (try_once-fails r new s e failed is_other)
        ]
      ]
