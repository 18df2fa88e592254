-- ===== src/Handle/Redial.antt =====
-- The handle holder (state.go) that is reset while its dialer works.
use curator_go.Base.{◌≡◌, refl, false, Option, none, some, Bytes, bytes_eq_iff, ℕ, arith}
use curator_go.Handle.{
  Outside, Helper, factory, cache, make_connection, get_zookeeper_connection, internal_close,
  close_and_reset, has_new_connection_string,
}

module _ {S : Type 0} (o : Outside S) (text : Bytes) where
  -- The provider's connection string stays the same, and dialing it raises no error.
  pub record IsSteady : Type 0 where
    pub strings : (s : S) → o.connection_string s ≡ text
    pub dials : (s : S) → (o.dial text s).0.2 ≡ none

  module _ (steady : IsSteady) where
    make_connection-IsSteady :
        (s : S)
        → ((make_connection o s).0.1 ≡ none)
          × ((conn : Option ℕ) × ((make_connection o s).1 ≡ some (cache text conn)))
    unfolding make_connection
    make_connection-IsSteady s =
        let same = steady.strings s in
        let fine = steady.dials s in
        rw (make_connection, same, fine) (refl, ((o.dial text s).0.0, rw same refl))

    -- What a holder that is reset has next.
    pub close_and_reset-factory :
        (conn : Option ℕ) (s : S) → (close_and_reset o (some (cache text conn)) s).1 ≡ some factory
    unfolding close_and_reset internal_close get_zookeeper_connection
    close_and_reset-factory none s = refl
    close_and_reset-factory (some c) s = refl

    pub redial :
        (h : Option Helper) (s : S)
        → h ≡ some factory
        → ((get_zookeeper_connection o h s).0.1 ≡ none)
          × ((conn : Option ℕ) × ((get_zookeeper_connection o h s).1 ≡ some (cache text conn)))
    unfolding get_zookeeper_connection
    redial h s e = rw e (make_connection-IsSteady s)

    pub has_new_connection_string-IsSteady :
        (conn : Option ℕ) (s : S) → has_new_connection_string o (some (cache text conn)) s ≡ false
    unfolding has_new_connection_string
    has_new_connection_string-IsSteady conn s =
        ground (arith, steady.strings s, bytes_eq_iff text text)

    pub cached :
        (conn : Option ℕ) (s : S)
        → get_zookeeper_connection o (some (cache text conn)) s
          ≡ ((conn, none), some (cache text conn), s)
    unfolding get_zookeeper_connection
    cached conn s = refl
