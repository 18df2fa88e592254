-- ===== src/Atomic/Writes.antt =====
-- What CompareAndSet and ForceSet (recipes/atomic.go) write, whatever other clients do between two
-- requests.
use curator_go.Base.{
  ℕ, ◌≡◌, refl, subst, sym, ap, ◌∙◌, true, false, ◌||◌, Option, none, some, List, arith,
  Option-cases, Bool-cases, inl, inr, bytes_eq_iff,
}
use curator_go.Errors.{Err, is_no_node, is_node_exists, is_bad_version}
use curator_go.Zk.{Slice, elements, any_version}
use curator_go.Atomic.{
  DistributedAtomicValue, MutableAtomicValue, blank_value, bytes_equal, current_value, force_set,
  compare_and_set, compared,
}
use curator_go.Atomic.History.{Content, Wrote, Replaced, IsVersioned, set_data-Replaced}

module _ {S : Type 0} (v : DistributedAtomicValue S) (trace : S → List Content)
    (law : IsVersioned v.client trace) where
  -- What a CompareAndSet that reports success has done.
  abbrev Swapped : Slice ℕ → Slice ℕ → Option MutableAtomicValue × Option Err → S → Type 0
  Swapped expected new (none, err) s = Unit
  Swapped expected new (some r, err) s =
      r.succeeded ≡ true
      → Replaced r.pre_value new (trace s)
        × (elements r.pre_value ≡ elements expected)
        × (r.post_value ≡ new)

  compared-Swapped :
      (set : Option Err) (expected new : Slice ℕ) (r : MutableAtomicValue) (s : S)
      → r.succeeded ≡ false
      → (set ≡ none → Replaced r.pre_value new (trace s))
      → elements r.pre_value ≡ elements expected
      → Swapped expected new (compared v set new r) s
  compared-Swapped none expected new r s blank k same = λ success. (k refl, same, refl)
  compared-Swapped (some e) expected new r s blank k same =
      elim (Bool-cases (is_bad_version e || is_no_node e)) [
        | inl conflict ↦ rw conflict (λ success. cc)
        | inr is_other ↦ rw is_other tt
      ]

  -- The two ways that a CompareAndSet goes on once the data are read.
  compare_and_set-same :
      (expected new : Slice ℕ) (s : S)
      → (v.client.get_data s).0.2 ≡ none
      → bytes_equal expected (v.client.get_data s).0.0 ≡ true
      → let ((read, version, err), s1) = v.client.get_data s in
        let (set, s2) = v.client.set_data version new s1 in
        compare_and_set v expected new s
        ≡ (compared v set new (record blank_value { pre_value = read }), s2)
  unfolding compare_and_set current_value
  compare_and_set-same expected new s fine same = ground arith

  compare_and_set-refuses :
      (expected new : Slice ℕ) (s : S) (r : MutableAtomicValue)
      → (v.client.get_data s).0.2 ≡ none
      → bytes_equal expected (v.client.get_data s).0.0 ≡ false
      → (compare_and_set v expected new s).0.0 ≡ some r
      → r.succeeded ≡ false
  unfolding compare_and_set current_value
  compare_and_set-refuses expected new s r fine other returned = ground arith

  compare_and_set-fails :
      (expected new : Slice ℕ) (s : S) (r : MutableAtomicValue) (e : Err)
      → (v.client.get_data s).0.2 ≡ some e
      → (compare_and_set v expected new s).0.0 ≡ some r
      → r.succeeded ≡ false
  unfolding compare_and_set current_value
  compare_and_set-fails expected new s r e failed returned = elim (Bool-cases (is_no_node e)) [
    | inl missing ↦ ground arith
    | inr is_other ↦ ground arith
  ]

  of_returned :
      (expected new : Slice ℕ) (out : Option MutableAtomicValue × Option Err) (s : S)
      (r : MutableAtomicValue)
      → out.0 ≡ some r
      → r.succeeded ≡ true
      → Swapped expected new out s
      → Replaced r.pre_value new (trace s)
        × (elements r.pre_value ≡ elements expected)
        × (r.post_value ≡ new)
  of_returned expected new (none, err) s r returned success h = absurd cc
  of_returned expected new (some r', err) s r returned success h =
      let same : r' ≡ r = cc in
      subst
        (λ x.
          Replaced x.pre_value new (trace s)
          × (elements x.pre_value ≡ elements expected)
          × (x.post_value ≡ new))
        same (h (ap (λ (x : MutableAtomicValue). x.succeeded) same ∙ success))

  from_equation :
      (expected new : Slice ℕ) {a b : (Option MutableAtomicValue × Option Err) × S}
      (r : MutableAtomicValue)
      → a ≡ b
      → a.0.0 ≡ some r
      → r.succeeded ≡ true
      → Swapped expected new b.0 b.1
      → Replaced r.pre_value new (trace a.1)
        × (elements r.pre_value ≡ elements expected)
        × (r.post_value ≡ new)
  from_equation expected new {a} {b} r e returned success h =
      of_returned expected new a.0 a.1 r returned success (
        subst (λ (x : (Option MutableAtomicValue × Option Err) × S). Swapped expected new x.0 x.1)
          (sym e) h)

  -- A CompareAndSet that reports success did set: at one moment the node had data equal to the
  -- expected ones (a nil slice equals an empty one) and after it the new ones, which the result has
  -- as the values before and after: right after it, unless the node was deleted in between, when
  -- other data may have been there. Other clients may act at any time; the server is as in
  -- IsVersioned.
  pub compare_and_set-Replaced :
      (expected new : Slice ℕ) (s : S) (r : MutableAtomicValue)
      → (compare_and_set v expected new s).0.0 ≡ some r
      → r.succeeded ≡ true
      → Replaced r.pre_value new (trace (compare_and_set v expected new s).1)
        × (elements r.pre_value ≡ elements expected)
        × (r.post_value ≡ new)
  compare_and_set-Replaced expected new s r returned success =
      let ((read, version, err), s1) = v.client.get_data s in
      let (set, s2) = v.client.set_data version new s1 in
      elim (Option-cases (v.client.get_data s).0.2) [
        | inr (e, failed) ↦
            let refused = compare_and_set-fails expected new s r e failed returned in absurd cc
        | inl fine ↦ elim (Bool-cases (bytes_equal expected read)) [
          | inr differs ↦
              let refused = compare_and_set-refuses expected new s r fine differs returned in
              absurd cc
          | inl same ↦
              from_equation expected new r (compare_and_set-same expected new s fine same) returned
                success
                (compared-Swapped set expected new (record blank_value { pre_value = read }) s2 refl
                  (set_data-Replaced v trace law s new fine)
                  (sym ((bytes_eq_iff (elements expected) (elements read)).0 same)))
        ]
      ]

  -- What the later requests of a ForceSet do, where its first found no node.
  force_set-missing :
      (new : Slice ℕ) (s : S) (e : Err)
      → (v.client.set_data any_version new s).0 ≡ some e
      → is_no_node e ≡ true
      → (v.client.create new (v.client.set_data any_version new s).1).0 ≡ none
      → force_set v new s ≡ v.client.create new (v.client.set_data any_version new s).1
  unfolding force_set
  force_set-missing new s e failed missing made = ground arith

  force_set-raced :
      (new : Slice ℕ) (s : S) (e e' : Err)
      → (v.client.set_data any_version new s).0 ≡ some e
      → is_no_node e ≡ true
      → (v.client.create new (v.client.set_data any_version new s).1).0 ≡ some e'
      → is_node_exists e' ≡ true
      → force_set v new s
        ≡ v.client.set_data any_version new
            (v.client.create new (v.client.set_data any_version new s).1).1
  unfolding force_set
  force_set-raced new s e e' failed missing refused exists = ground arith

  force_set-fails :
      (new : Slice ℕ) (s : S) (e : Err)
      → (v.client.set_data any_version new s).0 ≡ some e
      → is_no_node e ≡ false
      → (force_set v new s).0 ≡ some e
  unfolding force_set
  force_set-fails new s e failed is_other = ground arith

  create-fails :
      (new : Slice ℕ) (s : S) (e e' : Err)
      → (v.client.set_data any_version new s).0 ≡ some e
      → is_no_node e ≡ true
      → (v.client.create new (v.client.set_data any_version new s).1).0 ≡ some e'
      → is_node_exists e' ≡ false
      → (force_set v new s).0 ≡ some e'
  unfolding force_set
  create-fails new s e e' failed missing refused is_other = ground arith

  any_write :
      (new : Slice ℕ) {a b : Option Err × S}
      → a ≡ b
      → (before : Content) × Wrote before new (trace b.1)
      → (before : Content) × Wrote before new (trace a.1)
  any_write new e h =
      subst (λ (x : Option Err × S). (before : Content) × Wrote before new (trace x.1)) (sym e) h

  set_write :
      (new : Slice ℕ) (s : S)
      → (v.client.set_data any_version new s).0 ≡ none
      → (before : Content) × Wrote before new (trace (v.client.set_data any_version new s).1)
  set_write new s wrote =
      let (before, named, later, number, earlier, write, grown) =
        law.writes any_version new s wrote in
      (some before, (later, number, earlier, write))

  set_at_once :
      (new : Slice ℕ) (s : S)
      → (v.client.set_data any_version new s).0 ≡ none
      → force_set v new s ≡ v.client.set_data any_version new s
  unfolding force_set
  set_at_once new s wrote = ground arith

  -- A ForceSet without an error wrote the value: it is in the history of the node, whether the node
  -- was there, was missing, or was created by another client in between. The server is as in
  -- IsVersioned.
  pub force_set-Wrote :
      (new : Slice ℕ) (s : S)
      → (force_set v new s).0 ≡ none
      → (before : Content) × Wrote before new (trace (force_set v new s).1)
  force_set-Wrote new s fine =
      let (set, s1) = v.client.set_data any_version new s in
      let (created, s2) = v.client.create new s1 in
      elim (Option-cases (v.client.set_data any_version new s).0) [
        | inl wrote ↦ any_write new (set_at_once new s wrote) (set_write new s wrote)
        | inr (e, failed) ↦ elim (Bool-cases (is_no_node e)) [
          | inr is_other ↦ let fails = force_set-fails new s e failed is_other in absurd cc
          | inl missing ↦ elim (Option-cases created) [
            | inl made ↦
                any_write new (force_set-missing new s e failed missing made)
                  (none, law.creates new s1 made)
            | inr (e', refused) ↦ elim (Bool-cases (is_node_exists e')) [
              | inr is_other ↦
                  let fails = create-fails new s e e' failed missing refused is_other in absurd cc
              | inl exists ↦
                  let again = force_set-raced new s e e' failed missing refused exists in
                  any_write new again
                    (set_write new s2 (ap (λ (x : Option Err × S). x.0) (sym again) ∙ fine))
            ]
          ]
        ]
      ]
