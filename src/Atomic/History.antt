-- ===== src/Atomic/History.antt =====
-- The history of the node of an atomic value (recipes/atomic.go), and what a write of the value
-- leaves in it, whatever other clients do between two requests.
use curator_go.Base.{
  ℕ, ◌≡◌, ◌≢◌, refl, subst, sym, ap, ◌∙◌, Bool, true, Option, none, some, List, [], ◌∷◌, ◌++◌,
  append_assoc, arith, Option-cases, Bool-cases, inl, inr, ℤ, pos, ◌<◌, ◌⊎◌,
}
use curator_go.Errors.{Err, is_no_node}
use curator_go.Zk.{Slice, any_version}
use curator_go.Atomic.{NodeClient, DistributedAtomicValue, MutableAtomicValue, try_once, tried}
use curator_go.Atomic.Tries.{try_once-read, try_once-missing, try_once-fails}

-- What the node is at a time: missing, or its data with their version.
abbrev pub Content : Type 0
Content = Option (Slice ℕ × ℕ)

-- The contents that are in a history, which lists the newest first, one for each change.
abbrev pub Held : Content → List Content → Type 0
Held c t = (later : List Content) × (earlier : List Content) × (t ≡ later ++ c ∷ earlier)

-- The history has a write of the data, right after a content.
abbrev pub Wrote : Content → Slice ℕ → List Content → Type 0
Wrote before new t =
    (later : List Content) × (version : ℕ) × (earlier : List Content) × (t
      ≡ later ++ some (new, version) ∷ before ∷ earlier)

abbrev pub Grows : List Content → List Content → Type 0
Grows t t' = (more : List Content) × (t' ≡ more ++ t)

-- A content after the newest of a history: data over data have a greater version, and the versions
-- start anew when the node is created.
abbrev pub Newer : Content → List Content → Type 0
Newer none t = Unit
Newer (some c) [] = Unit
Newer (some c) (none ∷ t) = Unit
Newer (some (a, n)) (some (b, m) ∷ t) = m < n

abbrev pub Numbered : List Content → Type 0
Numbered [] = Unit
Numbered (c ∷ t) = Newer c t × Numbered t

-- What is assumed of the server, with `trace` the history of the node: data that are read were in
-- the node with the version that comes with them; a write that succeeds puts its data there after
-- the request, over data that have the version that it names, if it names one, and a creation puts
-- them there in place of none; and a write over data counts the version up. The node may be deleted
-- and created again, which starts the versions anew; they do not reach their greatest number.
pub record IsVersioned {S : Type 0} (n : NodeClient S) (trace : S → List Content) : Type 0 where
  pub reads :
      (s : S)
      → (n.get_data s).0.2 ≡ none
      → let ((read, version, err), s1) = n.get_data s in
        (number : ℕ) × (version ≡ pos number) × Held (some (read, number)) (trace s1)
  pub writes :
      (version : ℤ) (new : Slice ℕ) (s : S)
      → (n.set_data version new s).0 ≡ none
      → (before : Slice ℕ × ℕ) × (version ≢ any_version → version ≡ pos before.1)
        × (later : List Content) × (number : ℕ) × (earlier : List Content) × (trace
              (n.set_data version new s).1
            ≡ later ++ some (new, number) ∷ some before ∷ earlier)
        × Grows (trace s) (some before ∷ earlier)
  pub creates :
      (new : Slice ℕ) (s : S)
      → (n.create new s).0 ≡ none
      → Wrote none new (trace (n.create new s).1)
  pub numbered : (s : S) → Numbered (trace s)

-- The value of a content: nil for a missing node.
abbrev pub value_of : Content → Slice ℕ
value_of none = none
value_of (some (held, version)) = held

-- The history has a write of the new value after a content with the old one: right after it, unless
-- the node was missing in between.
abbrev pub Replaced : Slice ℕ → Slice ℕ → List Content → Type 0
Replaced old new t =
    (later : List Content) × (version : ℕ) × (since : List Content) × (before : Content)
    × (earlier : List Content) × (t ≡ later ++ some (new, version) ∷ (since ++ before ∷ earlier))
    × (value_of before ≡ old)
    × ((since ≡ []) ⊎ Held none since)

Numbered-append : (later t : List Content) → Numbered (later ++ t) → Numbered t
Numbered-append [] t h = h
Numbered-append (c ∷ later) t h = Numbered-append later t h.1

-- Between two contents with data the versions count up, unless the node was missing in between.
between :
    (since : List Content) (a b : Slice ℕ) (n m : ℕ) (earlier : List Content)
    → Numbered (some (a, n) ∷ (since ++ some (b, m) ∷ earlier))
    → (m < n) ⊎ Held none since
between [] a b n m earlier h = inl h.0
between (none ∷ since) a b n m earlier h = inr ([], since, refl)
between (some (c, k) ∷ since) a b n m earlier h = elim (between since c b k m earlier h.1) [
  | inl less ↦ inl (omega (arith, less, h.0))
  | inr (later, rest, e) ↦ inr (some (c, k) ∷ later, rest, ap (λ l. some (c, k) ∷ l) e)
]

-- A write over data that have the version of data read before.
pub same_version-Replaced :
    (new read held : Slice ℕ) (n number : ℕ) (later earlier since older t : List Content)
    → Numbered t
    → t ≡ later ++ some (new, number) ∷ some (held, n) ∷ earlier
    → some (held, n) ∷ earlier ≡ since ++ some (read, n) ∷ older
    → Replaced read new t
same_version-Replaced new read held n number later earlier [] older t numbered write was =
    (later, number, [], some (held, n), earlier, write, cc, inl refl)
same_version-Replaced new read held n number later earlier (c ∷ since) older t numbered write was =
    let same : earlier ≡ since ++ some (read, n) ∷ older = cc in
    let tail = Numbered-append (later ++ some (new, number) ∷ []) (some (held, n) ∷ earlier) (
      subst Numbered
        (write ∙ sym (append_assoc later (some (new, number) ∷ []) (some (held, n) ∷ earlier)))
        numbered) in
    elim (between since held read n n older
      (subst (λ l. Numbered (some (held, n) ∷ l)) same tail)) [
        | inl less ↦ absurd (omega (arith, less))
        | inr (l, rest, e) ↦ (
          later,
          number,
          c ∷ since,
          some (read, n),
          older,
          write ∙ ap (λ l'. later ++ some (new, number) ∷ l') was,
          refl,
          inr (c ∷ l, rest, ap (λ l'. c ∷ l') e),
        )
      ]

pub Wrote-Replaced :
    (c : Content) (new : Slice ℕ) (t : List Content) → Wrote c new t → Replaced (value_of c) new t
Wrote-Replaced c new t (later, version, earlier, e) =
    (later, version, [], c, earlier, e, refl, inl refl)

pub Replaced-Grows :
    (old new : Slice ℕ) (t t' : List Content)
    → Replaced old new t
    → Grows t t'
    → Replaced old new t'
Replaced-Grows old new t t' (later, version, since, before, earlier, e, held, missing) (more, e') =
    (
      more ++ later,
      version,
      since,
      before,
      earlier,
      e'
          ∙ ap (λ l. more ++ l) e
          ∙ sym (append_assoc more later (some (new, version) ∷ (since ++ before ∷ earlier))),
      held,
      missing,
    )

module _ {S : Type 0} (v : DistributedAtomicValue S) (trace : S → List Content)
    (law : IsVersioned v.client trace) where
  -- A write that names the version read replaces the data read.
  pub set_data-Replaced :
      (s : S) (new : Slice ℕ)
      → let ((read, version, err), s1) = v.client.get_data s in
        let (set, s2) = v.client.set_data version new s1 in
        (err ≡ none → set ≡ none → Replaced read new (trace s2))
  set_data-Replaced s new fine wrote =
      let ((read, version, err), s1) = v.client.get_data s in
      let (set, s2) = v.client.set_data version new s1 in
      let (n, given, (l, older, was)) = law.reads s fine in
      let ((held, m), named, later, number, earlier, write, (since, grown)) =
        law.writes version new s1 wrote in
      let same : m ≡ n = same_number (sym (named (λ e. cc)) ∙ given) in
      let joined =
        grown ∙ ap (λ x. since ++ x) was ∙ sym (append_assoc since l (some (read, n) ∷ older)) in
      same_version-Replaced new read held n number later earlier (since ++ l) older (trace s2)
        (law.numbered s2)
        (write ∙ ap (λ x. later ++ some (new, number) ∷ some (held, x) ∷ earlier) same)
        (ap (λ x. some (held, x) ∷ earlier) (sym same) ∙ joined)
    where
      same_number : {a b : ℕ} → pos a ≡ pos b → a ≡ b
      same_number e = cc

  -- A try that succeeds.
  abbrev pub Succeeds : Slice ℕ → Bool × Option Err × MutableAtomicValue → S → Type 0
  Succeeds new (success, err, r) s =
      success ≡ true → Replaced r.pre_value new (trace s) × (r.post_value ≡ new)

  tried-Succeeds :
      (wrote : Option Err) (new : Slice ℕ) (r : MutableAtomicValue) (s : S)
      → (wrote ≡ none → Replaced r.pre_value new (trace s))
      → Succeeds new (tried v wrote new r) s
  tried-Succeeds none new r s k success = (k refl, refl)
  tried-Succeeds (some e) new r s k success = absurd (ground arith)

  carry :
      (new : Slice ℕ) {a b : (Bool × Option Err × MutableAtomicValue) × S}
      → a ≡ b
      → Succeeds new a.0 a.1
      → Succeeds new b.0 b.1
  carry new e h =
      subst (λ (x : (Bool × Option Err × MutableAtomicValue) × S). Succeeds new x.0 x.1) e h

  pub try_once-Succeeds :
      (r : MutableAtomicValue) (new : Slice ℕ) (s : S)
      → Succeeds new (try_once v r new s).0 (try_once v r new s).1
  try_once-Succeeds r new s =
      let ((read, version, err), s1) = v.client.get_data s in
      let (set, s2) = v.client.set_data version new s1 in
      let (created, s3) = v.client.create new s1 in
      elim (Option-cases (v.client.get_data s).0.2) [
        | inl fine ↦ carry new (sym (try_once-read v r new s fine)) (
            tried-Succeeds set new (record r { pre_value = read }) s2
              (set_data-Replaced s new fine))
        | inr (e, failed) ↦ elim (Bool-cases (is_no_node e)) [
          | inl missing ↦ carry new (sym (try_once-missing v r new s e failed missing)) (
              tried-Succeeds created new (record r { pre_value = none }) s3
                (λ wrote. Wrote-Replaced none new (trace s3) (law.creates new s1 wrote)))
          | inr is_other ↦
              carry new (sym (try_once-fails v r new s e failed is_other)) (λ success. cc)
        ]
      ]
