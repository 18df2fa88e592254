-- ===== src/Handle/Ownership.antt =====
-- Which connections the handle holder (state.go) leaves open.
use curator_go.Base.{
  ◌≡◌, refl, ◌≢◌, Option, none, some, List, [], ◌∷◌, Bytes, ℕ, arith, Option-cases, inl, inr, ◌==◌,
  ==_iff, if◌then◌else◌,
}
use curator_go.Errors.{Err}
use curator_go.Handle.{
  Outside, Event, Helper, factory, cache, make_connection, get_zookeeper_connection, internal_close,
  close_and_clear, close_and_reset,
}

-- The list without the first occurrence of an element.
abbrev pub erase : ℕ → List ℕ → List ℕ
erase c [] = []
erase c (d ∷ l) = let rest = d ∷ erase c l in if c == d then l else rest

-- What is assumed of the dialer, where `open_conns` lists the connections that are open: a dial
-- opens the connection that it returns and, where it fails, none; closing one closes that one.
pub record IsLawful {S : Type 0} (o : Outside S) (open_conns : S → List ℕ) : Type 0 where
  pub dial_fails :
      (text : Bytes) (s : S) (e : Err)
      → (o.dial text s).0.2 ≡ some e
      → open_conns (o.dial text s).1 ≡ open_conns s
  pub dial_nil :
      (text : Bytes) (s : S)
      → (o.dial text s).0.2 ≡ none
      → (o.dial text s).0.0 ≡ none
      → open_conns (o.dial text s).1 ≡ open_conns s
  pub dial_opens :
      (text : Bytes) (s : S) (c : ℕ)
      → (o.dial text s).0.2 ≡ none
      → (o.dial text s).0.0 ≡ some c
      → open_conns (o.dial text s).1 ≡ c ∷ open_conns s
  pub closes : (c : ℕ) (s : S) → open_conns (o.close_conn c s) ≡ erase c (open_conns s)
  pub watches : (channel : ℕ) (s : S) → open_conns (o.watch channel s) ≡ open_conns s
  pub counts : (e : Event) (s : S) → open_conns (o.add_count e s) ≡ open_conns s
  pub starts : (s : S) → open_conns (o.start_ensemble s).1 ≡ open_conns s
  pub ends : (s : S) → open_conns (o.close_ensemble s) ≡ open_conns s

-- The connections that a helper keeps.
abbrev pub held : Option Helper → List ℕ
held none = []
held (some factory) = []
held (some (cache connect_string none)) = []
held (some (cache connect_string (some c))) = c ∷ []

module _ {S : Type 0} (o : Outside S) (open_conns : S → List ℕ) (law : IsLawful o open_conns) where
  -- What is open is what the helper keeps.
  abbrev pub Owns : Option Helper → S → Type 0
  Owns h s = open_conns s ≡ held h

  make_connection-Owns :
      (s : S) → open_conns s ≡ [] → Owns (make_connection o s).1 (make_connection o s).2
  unfolding make_connection
  make_connection-Owns s h =
      let text = o.connection_string s in
      let s1 = (o.dial text s).1 in
      elim (Option-cases (o.dial text s).0.2) [
        | inr (e, failed) ↦ ground (arith, law.dial_fails text s e)
        | inl fine ↦ elim (Option-cases (o.dial text s).0.1) [
          | inl no_events ↦ elim (Option-cases (o.dial text s).0.0) [
            | inl nil ↦ ground (arith, law.dial_nil text s)
            | inr (c, conn) ↦ ground (arith, law.dial_opens text s c)
          ]
          | inr (channel, events) ↦ elim (Option-cases (o.dial text s).0.0) [
            | inl nil ↦ ground (arith, law.dial_nil text s, law.watches channel s1)
            | inr (c, conn) ↦ ground (arith, law.dial_opens text s c, law.watches channel s1)
          ]
        ]
      ]

  -- The connection that is returned is the one that is kept.
  make_connection-held :
      (s : S)
      → (make_connection o s).0.1 ≡ none
      → held (make_connection o s).1
        ≡ (elim ((make_connection o s).0.0) [ none ↦ [] | some c ↦ c ∷ [] ])
  unfolding make_connection
  make_connection-held s e =
      let text = o.connection_string s in
      elim (Option-cases (o.dial text s).0.2) [
        | inr (e', failed) ↦ ground arith
        | inl fine ↦ elim (Option-cases (o.dial text s).0.0) [
          | inl nil ↦ ground arith
          | inr (c, conn) ↦ ground arith
        ]
      ]

  pub get_zookeeper_connection-Owns :
      (h : Option Helper) (s : S)
      → Owns h s
      → Owns (get_zookeeper_connection o h s).1 (get_zookeeper_connection o h s).2
  unfolding get_zookeeper_connection
  get_zookeeper_connection-Owns none s v = v
  get_zookeeper_connection-Owns (some factory) s v = make_connection-Owns s v
  get_zookeeper_connection-Owns (some (cache text conn)) s v = v

  close_made :
      (s : S)
      → open_conns s ≡ []
      → ((e : Err) → (make_connection o s).0.1 ≡ some e → (make_connection o s).1 ≡ some factory)
  unfolding make_connection
  close_made s h e failed = ground arith

  -- After internalClose without an error nothing is open; with one, nothing was.
  internal_close-Owns :
      (h : Option Helper) (s : S)
      → Owns h s
      → (open_conns (internal_close o h s).2 ≡ [])
        × ((internal_close o h s).0 ≢ none → (internal_close o h s).1 ≡ some factory)
  unfolding internal_close get_zookeeper_connection
  internal_close-Owns none s v = (v, λ f. absurd (f refl))
  internal_close-Owns (some factory) s v =
      let made = make_connection-Owns s v in
      let s1 = (make_connection o s).2 in
      elim (Option-cases (make_connection o s).0.1) [
        | inr (e, failed) ↦ ground (arith, close_made s v e)
        | inl fine ↦ elim (Option-cases (make_connection o s).0.0) [
          | inl nil ↦ ground (arith, make_connection-held s fine)
          | inr (c, conn) ↦
              let closed = law.closes c s1 in
              let same : open_conns s1 ≡ c ∷ [] = ground (arith, make_connection-held s fine) in
              ground (arith, ==_iff c c)
        ]
      ]
  internal_close-Owns (some (cache text none)) s v = (v, λ f. absurd (f refl))
  internal_close-Owns (some (cache text (some c))) s v =
      let closed = law.closes c s in (ground (arith, ==_iff c c), λ f. absurd (f refl))

  pub close_and_clear-Owns :
      (h : Option Helper) (s : S)
      → Owns h s
      → Owns (close_and_clear o h s).1 (close_and_clear o h s).2
  unfolding close_and_clear
  close_and_clear-Owns none s v = (internal_close-Owns none s v).0
  close_and_clear-Owns (some factory) s v = v
  close_and_clear-Owns (some (cache text conn)) s v =
      (internal_close-Owns (some (cache text conn)) s v).0

  pub close_and_reset-Owns :
      (h : Option Helper) (s : S)
      → Owns h s
      → Owns (close_and_reset o h s).1 (close_and_reset o h s).2
  unfolding close_and_reset
  close_and_reset-Owns h s v =
      let (closed, kept) = internal_close-Owns h s v in
      elim (Option-cases (internal_close o h s).0) [
        | inl fine ↦ ground arith
        | inr (e, failed) ↦ ground arith
      ]

  -- A holder that is cleared keeps no connection.
  pub close_and_clear-held : (h : Option Helper) (s : S) → held (close_and_clear o h s).1 ≡ []
  unfolding close_and_clear
  close_and_clear-held none s = refl
  close_and_clear-held (some factory) s = refl
  close_and_clear-held (some (cache text conn)) s = refl
