-- ===== src/Store/Sets/Commands.antt =====
-- SADD and SREM in terms of what SISMEMBER and SCARD answer.
use mathlib.Core.Path.{subst}
use flash_db.Base.{
  ◌≡◌, refl, sym, ap, ◌∙◌, false, not, ◌&&◌, List, Bytes, ◌=ₛ◌, if◌then◌else◌, arith,
}
use flash_db.Map.{get_ref}
use flash_db.Value.{Clock, as_set}
use flash_db.Value.Collections.{SetInner}
use flash_db.Value.Collections.Set.{new, contains, len, member_of, binary_search}
use flash_db.Value.Collections.Set.Laws.{contains-iter}
use flash_db.Store.{Store, Result, ok, err}
use flash_db.Store.Update.{map_ok}
use flash_db.Store.Update.Refine
use flash_db.Store.Update.Refine.{outcome}
use flash_db.Store.Sets.{remove_loop, removed_members, srem, sismember, scard}
use flash_db.Store.Sets.Changes.{set_at, IsSetAt, plus, srem-Refines, remove_loop_lem}

pub contains-new : (m : Bytes) → contains new m ≡ false
unfolding contains new binary_search
contains-new m = ground arith

module _ {Z S : Type 0} (c : Clock) (s : Store Z S) (key : Bytes) where
  pub sismember-set_at :
      (m : Bytes) → sismember c s key m ≡ map_ok (λ x. contains x m) (set_at c s key)
  unfolding sismember
  sismember-set_at m =
      Refine.read_as-held as_set new c s key false (λ x. contains x m) (contains-new m)

  pub scard-set_at : scard c s key ≡ map_ok len (set_at c s key)
  unfolding scard len new
  scard-set_at = Refine.read_as-held as_set new c s key 0 len refl

removed_at :
    (members : List Bytes) (j : Bytes) (r : Result SetInner)
    → IsSetAt r
    → let done = outcome (removed_members members) r in
      IsSetAt done.0
      × (map_ok (λ x. contains x j) done.0
          ≡ map_ok (λ b. not (member_of j members) && b) (map_ok (λ x. contains x j) r))
      × (map_ok len r ≡ plus (map_ok len done.0) done.1)
unfolding outcome map_ok removed_members
removed_at members j (err e) w = (tt, refl, refl)
removed_at members j (ok x) w =
    let l = remove_loop_lem members x 0 w in
    let y = (remove_loop members x 0).0 in
    (
      l.0,
      ap ok (
          contains-iter y j l.0
          ∙ l.1 j
          ∙ ap (λ b. not (member_of j members) && b) (sym (contains-iter x j w))),
      ap ok (omega (arith, l.2)),
    )

module _ {Z S : Type 0} (c : Clock) (s : Store Z S) (key : Bytes) (members : List Bytes)
    (j k : Bytes) where
  -- Where the key stands for a set in a whole form, SREM leaves one: SISMEMBER then finds what it
  -- found before but for what was given, SCARD shrinks by the result, and no other key changes; a
  -- key of another type stays an error for all three.
  pub srem_lem :
      IsSetAt (set_at c s key)
      → let done = srem c s key members in
        IsSetAt (set_at c done.0 key)
        × (sismember c done.0 key j
            ≡ map_ok (λ b. not (member_of j members) && b) (sismember c s key j))
        × (scard c s key ≡ plus (scard c done.0 key) done.1)
        × (get_ref done.0.contents k
            ≡ (if key =ₛ k then get_ref done.0.contents key else get_ref s.contents k))
  srem_lem w =
      let done = srem c s key members in
      let f = srem-Refines c s key k members in
      let x = ap (λ p. p.0) f.0 in
      let a = removed_at members j (set_at c s key) w in
      (
        subst IsSetAt (sym x) a.0,
        sismember-set_at c done.0 key j
            ∙ ap (map_ok (λ y. contains y j)) x
            ∙ a.1
            ∙ ap (map_ok (λ b. not (member_of j members) && b)) (sym (sismember-set_at c s key j)),
        rw (scard-set_at c done.0 key, x, scard-set_at c s key, ap (λ p. p.1) f.0) a.2,
        f.1,
      )
