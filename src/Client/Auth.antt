-- ===== src/Client/Auth.antt =====
-- The dialer of a client (client.go), which adds authorizations: what it leaves open.
use curator_go.Base.{
  ℕ, ◌≡◌, refl, ap, ◌∙◌, Option, none, some, List, [], ◌∷◌, arith, Bytes, Option-cases, inl, inr,
  ==_iff,
}
use curator_go.Errors.{Err}
use curator_go.Handle.{Outside}
use curator_go.Handle.Ownership.{IsLawful, erase}
use curator_go.Client.{AuthInfo, Authorizer, Dialed, authorize, authorized, authorizing}

module _ {S : Type 0} (o : Outside S) (open_conns : S → List ℕ) (law : IsLawful o open_conns)
    (add_auth : Authorizer S)
    (adds : (c : ℕ) (info : AuthInfo) (s : S)
      → open_conns (add_auth c info s).1 ≡ open_conns s) where
  -- What a dial leaves open, for what was open before.
  abbrev Leaves : List ℕ → Dialed S → Type 0
  Leaves before ((conn, events, some e), s) = open_conns s ≡ before
  Leaves before ((none, events, none), s) = open_conns s ≡ before
  Leaves before ((some c, events, none), s) = open_conns s ≡ c ∷ before

  erase_first : (c : ℕ) (l : List ℕ) → erase c (c ∷ l) ≡ l
  erase_first c l = ground (arith, ==_iff c c)

  authorize-Leaves :
      (infos : List AuthInfo) (c : ℕ) (events : Option ℕ) (before : List ℕ) (s : S)
      → open_conns s ≡ c ∷ before
      → Leaves before (authorize o.close_conn add_auth infos c events s)
  unfolding authorize
  authorize-Leaves [] c events before s h = h
  authorize-Leaves (info ∷ rest) c events before s h =
      let s1 = (add_auth c info s).1 in
      let still = adds c info s ∙ h in
      elim (Option-cases (add_auth c info s).0) [
        | inl fine ↦ rw (fine, authorize) (authorize-Leaves rest c events before s1 still)
        | inr (e, failed) ↦
            rw (failed, authorize) (law.closes c s1 ∙ ap (erase c) still ∙ erase_first c before)
      ]

  dialed_by :
      (before : List ℕ) (d : Dialed S)
      → ((e : Err) → d.0.2 ≡ some e → open_conns d.1 ≡ before)
      → (d.0.2 ≡ none → d.0.0 ≡ none → open_conns d.1 ≡ before)
      → ((c : ℕ) → d.0.2 ≡ none → d.0.0 ≡ some c → open_conns d.1 ≡ c ∷ before)
      → Leaves before d
  dialed_by before ((conn, events, some e), s) fails nil opens = fails e refl
  dialed_by before ((none, events, none), s) fails nil opens = nil refl refl
  dialed_by before ((some c, events, none), s) fails nil opens = opens c refl refl

  Leaves-fails :
      (before : List ℕ) (d : Dialed S) (e : Err)
      → Leaves before d
      → d.0.2 ≡ some e
      → open_conns d.1 ≡ before
  Leaves-fails before ((conn, events, some e'), s) e h failed = h
  Leaves-fails before ((conn, events, none), s) e h failed = absurd cc

  Leaves-nil :
      (before : List ℕ) (d : Dialed S)
      → Leaves before d
      → d.0.2 ≡ none
      → d.0.0 ≡ none
      → open_conns d.1 ≡ before
  Leaves-nil before ((conn, events, some e), s) h fine nil = h
  Leaves-nil before ((none, events, none), s) h fine nil = h
  Leaves-nil before ((some c, events, none), s) h fine nil = absurd cc

  Leaves-opens :
      (before : List ℕ) (d : Dialed S) (c : ℕ)
      → Leaves before d
      → d.0.2 ≡ none
      → d.0.0 ≡ some c
      → open_conns d.1 ≡ c ∷ before
  Leaves-opens before ((conn, events, some e), s) c h fine opened = absurd cc
  Leaves-opens before ((none, events, none), s) c h fine opened = absurd cc
  Leaves-opens before ((some c', events, none), s) c h fine opened =
      let same : c' ≡ c = cc in h ∙ ap (λ x. x ∷ before) same

  dial-Leaves : (text : Bytes) (s : S) → Leaves (open_conns s) (o.dial text s)
  dial-Leaves text s =
      dialed_by (open_conns s) (o.dial text s) (law.dial_fails text s) (law.dial_nil text s)
        (law.dial_opens text s)

  authorized-Leaves :
      (infos : List AuthInfo) (before : List ℕ) (d : Dialed S)
      → Leaves before d
      → Leaves before (authorized o.close_conn add_auth infos d)
  unfolding authorized
  authorized-Leaves infos before ((some c, events, none), s) h =
      authorize-Leaves infos c events before s h
  authorized-Leaves infos before ((none, events, none), s) h = h
  authorized-Leaves infos before ((conn, events, some e), s) h = h

  dials :
      (infos : List AuthInfo) (text : Bytes) (s : S)
      → Leaves (open_conns s) ((authorizing o add_auth infos).dial text s)
  unfolding authorizing
  dials infos text s = authorized-Leaves infos (open_conns s) (o.dial text s) (dial-Leaves text s)

  -- The dialer of a client is as lawful as the dialer that it was given: a dial that fails, also by an
  -- authorization, leaves no connection open that was not open before, since it closes the one
  -- that it could not authorize; another opens just the one that it returns. Adding an
  -- authorization opens and closes nothing.
  pub authorizing-IsLawful :
      (infos : List AuthInfo) → IsLawful (authorizing o add_auth infos) open_conns
  unfolding authorizing
  authorizing-IsLawful infos = record {
    dial_fails = λ text s e. Leaves-fails (open_conns s) (d infos text s) e (dials infos text s);
    dial_nil = λ text s. Leaves-nil (open_conns s) (d infos text s) (dials infos text s);
    dial_opens = λ text s c. Leaves-opens (open_conns s) (d infos text s) c (dials infos text s);
    closes = law.closes;
    watches = law.watches;
    counts = law.counts;
    starts = law.starts;
    ends = law.ends;
  }
    where
      d : List AuthInfo → Bytes → S → Dialed S
      d infos text s = (authorizing o add_auth infos).dial text s
