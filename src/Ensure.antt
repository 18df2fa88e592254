-- ===== src/Ensure.antt =====
-- EnsurePath (paths.go): an ensurePath, its helper, and the views that ExcludingLast makes, which
-- share the helper. What the helper runs is MakeDirs in a retry loop.
pub mod Kept
mod Tests
use curator_go.Base.{
  ℕ, ◌≡◌, refl, Bool, true, false, not, Option, none, some, List, [], ◌∷◌, arith, if◌then◌else◌,
  Bytes, Returns,
}
use curator_go.Errors.{Err}
use curator_go.Zk.{Conn, AclProvider}
use curator_go.Path.Dirs.{make_dirs}
use curator_go.Retry.{World, Policy, new_retry_loop, call_with_retry}

-- An ensurePath; `has_helper` says whether its helper is not nil. The helper of a view is the one
-- that its owner had when the view was made.
pub record EnsurePath : Type 0 where
  pub path : Bytes
  pub make_last_node : Bool
  pub has_helper : Bool

-- The default helper, and the ensurePath that owns it.
pub record Shared : Type 0 where
  pub started : Bool
  pub owner : EnsurePath

-- NewEnsurePathWithAclAndHelper, with a nil helper.
pub new_ensure_path : Bytes → Shared
new_ensure_path path = record {
  started = false;
  owner = record { path = path; make_last_node = true; has_helper = true };
}

-- ExcludingLast.
pub excluding_last : EnsurePath → EnsurePath
excluding_last p = record p { make_last_node = false }

module _ {S A T : Type 0} (w : World S) (policy : Policy S) (conn : Conn S A T)
    (connect : S → Option Err × S) (provider : Option (AclProvider A)) where
  -- One attempt of the retry loop: `connect` is the client's Conn(). MakeDirs has enough fuel.
  attempt : Bytes → Bool → S → (Unit {0} × Option Err) × S
  attempt path make_last s =
      let (err, s1) = connect s in
      elim err [
        | some e ↦ ((tt, some e), s1)
        | none ↦ elim (make_dirs conn path make_last provider s1) [
          | none ↦ ((tt, none), s1)
          | some (err', s2) ↦ ((tt, err'), s2)
        ]
      ]

  -- ensurePathHelper.Ensure; `none` means that the retry loop ran out of fuel.
  helper_ensure : ℕ → Shared → Bytes → Bool → S → Option (Option Err × Shared × S)
  unfolding attempt
  helper_ensure fuel sh path make_last s =
      if not sh.started
      then elim (call_with_retry w fuel (new_retry_loop w policy s) (attempt path make_last) s) [
        | none ↦ none
        | some ((value, err), s') ↦
            some
              (err, record { started = true; owner = record sh.owner { has_helper = false } }, s')
      ]
      else some (none, sh, s)

  -- ensurePath.Ensure, called on the owner (`none`) or on a view.
  pub ensure : ℕ → Shared → Option EnsurePath → S → Option (Option Err × Shared × S)
  unfolding helper_ensure
  ensure fuel sh none s =
      if sh.owner.has_helper
      then helper_ensure fuel sh sh.owner.path sh.owner.make_last_node s
      else some (none, sh, s)
  ensure fuel sh (some view) s =
      if view.has_helper
      then helper_ensure fuel sh view.path view.make_last_node s
      else some (none, sh, s)

  -- The object whose method is called.
  abbrev called : Shared → Option EnsurePath → EnsurePath
  called sh none = sh.owner
  called sh (some view) = view

  helper_ensure-started :
      (fuel : ℕ) (sh : Shared) (path : Bytes) (make_last : Bool) (s : S)
      (r : Option Err × Shared × S)
      → helper_ensure fuel sh path make_last s ≡ some r
      → r.1.started ≡ true
  unfolding helper_ensure
  helper_ensure-started fuel sh path make_last s r e = ground arith

  ensure_started :
      (fuel : ℕ) (sh : Shared) (who : Option EnsurePath) (s : S)
      → sh.started ≡ true
      → ensure fuel sh who s ≡ some (none, sh, s)
  unfolding ensure
  ensure_started fuel sh none s e = ground arith
  ensure_started fuel sh (some view) s e = ground arith

  -- Once a call on the owner or on a view that has a helper has returned, with or without an
  -- error, every later call on the owner or on any view returns no error and does nothing, also
  -- where it would make the last node and the first call did not.
  pub ensure_once :
      (fuel fuel' : ℕ) (sh : Shared) (who later : Option EnsurePath) (s t : S)
      {r : Option Err × Shared × S}
      → (called sh who).has_helper ≡ true
      → ensure fuel sh who s ≡ some r
      → ensure fuel' r.1 later t ≡ some (none, r.1, t)
  unfolding ensure
  ensure_once fuel fuel' sh none later s t {r} h e =
      ensure_started fuel' r.1 later t
        (helper_ensure-started fuel sh sh.owner.path sh.owner.make_last_node s r (ground arith))
  ensure_once fuel fuel' sh (some view) later s t {r} h e =
      ensure_started fuel' r.1 later t
        (helper_ensure-started fuel sh view.path view.make_last_node s r (ground arith))
