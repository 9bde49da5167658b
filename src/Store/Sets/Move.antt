-- ===== src/Store/Sets/Move.antt =====
-- SMOVE between two keys, in terms of what SISMEMBER answers.
use mathlib.Core.Path.{subst}
use flash_db.Base.{
  ◌≡◌, refl, sym, ap, ◌∙◌, Bool, true, false, not, ◌||◌, ◌&&◌, Bytes, ◌=ₛ◌, flip_false,
  if◌then◌else◌,
}
use flash_db.Map.{get_ref}
use flash_db.Value.{set, Clock, as_set}
use flash_db.Value.Collections.{SetInner}
use flash_db.Value.Collections.Set.{new, insert, remove, contains, from_strings, insert_all}
use flash_db.Value.Collections.Set.Laws.{contains-iter}
use flash_db.Value.Collections.Set.Insertion.{insert-Inserted}
use flash_db.Value.Collections.Set.Removal.{remove-Removed}
use flash_db.Store.{Store, Result, ok, err}
use flash_db.Store.Update.{map_ok, modify, on_entry}
use flash_db.Store.Update.Refine
use flash_db.Store.Update.Refine.{view, held, outcome, Refines}
use flash_db.Store.Sets.{
  take_member, give_member, smove_give, smove_taken, smove, sismember, fresh_set,
}
use flash_db.Store.Sets.Changes.{set_at, IsSetAt, as_set-set, view-fresh_set, remove-new}
use flash_db.Store.Sets.Commands.{sismember-set_at}
use flash_db.Store.Sets.Algebra.{is_true}

module _ {Z S : Type 0} (c : Clock) (s : Store Z S) (key j member : Bytes) where
  take-Refines :
      Refines as_set new c s key
        (modify s key (on_entry as_set set c (λ v. (v, ok false)) (take_member member)) false)
        (take_member member)
        j
  unfolding outcome take_member view
  take-Refines =
      Refine.modify-Refines as_set new c s key j
        (on_entry as_set set c (λ v. (v, ok false)) (take_member member)) false (take_member member)
        (Refine.on_entry-EntryRefines as_set new set c (λ v. (v, ok false)) (take_member member)
          (as_set-set Z S)
          (λ v e. rw (Refine.view_expired as_set new c v e) (rw (remove-new member) refl)))
        (rw (remove-new member) refl)

  give-Refines : Refines as_set new c s key (smove_give c s key member) (give_member member) j
  unfolding smove_give outcome give_member view from_strings insert_all
  give-Refines =
      let x = (insert new member).0 in
      Refine.upsert-Refines as_set new c s key j
        (on_entry as_set set c (λ v. (fresh_set x, ok tt)) (give_member member)) (fresh_set x) tt
        (give_member member)
        (Refine.on_entry-EntryRefines as_set new set c (λ v. (fresh_set x, ok tt))
          (give_member member) (as_set-set Z S) (λ v e. rw (view-fresh_set Z S c x) refl))
        (rw (view-fresh_set Z S c x) refl)

-- The set that is left where a member is taken, and where it is given.
taken_at :
    (member j : Bytes) (r : Result SetInner)
    → IsSetAt r
    → let done = outcome (take_member member) r in
      (map_ok (λ x. contains x j) done.0
        ≡ map_ok (λ b. not (member =ₛ j) && b) (map_ok (λ x. contains x j) r))
      × (done.1 ≡ map_ok (λ x. contains x member) r)
unfolding outcome map_ok take_member
taken_at member j (err e) w = (refl, refl)
taken_at member j (ok x) w =
    let l = remove-Removed x member w in
    (
      ap ok (
          contains-iter (remove x member).0 j l.whole
          ∙ l.members j
          ∙ ap (λ b. not (member =ₛ j) && b) (sym (contains-iter x j w))),
      ap ok (l.was_there ∙ sym (contains-iter x member w)),
    )

given_at :
    (member j : Bytes) (r : Result SetInner)
    → IsSetAt r
    → let done = outcome (give_member member) r in
      (map_ok (λ x. contains x j) done.0
        ≡ map_ok (λ b. (member =ₛ j) || b) (map_ok (λ x. contains x j) r))
      × (map_ok (λ u. true) done.1 ≡ map_ok (λ b. true) (map_ok (λ x. contains x j) r))
unfolding outcome map_ok give_member
given_at member j (err e) w = (refl, refl)
given_at member j (ok x) w =
    let l = insert-Inserted x member w in
    (
      ap ok (
          contains-iter (insert x member).0 j l.whole
          ∙ l.members j
          ∙ ap (λ b. (member =ₛ j) || b) (sym (contains-iter x j w))),
      refl,
    )

module _ {Z S : Type 0} (c : Clock) where
  -- SISMEMBER answers by what the map holds.
  same_set :
      (s t : Store Z S) (k : Bytes)
      → get_ref t.contents k ≡ get_ref s.contents k
      → set_at c t k ≡ set_at c s k
  unfolding held
  same_set s t k e = ap (view as_set new c) e

  same_answer :
      (s t : Store Z S) (k j : Bytes)
      → get_ref t.contents k ≡ get_ref s.contents k
      → sismember c t k j ≡ sismember c s k j
  same_answer s t k j e =
      sismember-set_at c t k j
      ∙ ap (map_ok (λ x. contains x j)) (same_set s t k e)
      ∙ sym (sismember-set_at c s k j)

module _ {Z S : Type 0} (c : Clock) (s : Store Z S) (src dst member j : Bytes) where
  after_taken :
      (dst =ₛ src) ≡ false
      → IsSetAt (set_at c s dst)
      → (taken : Result Bool)
      → let done = smove_taken c s dst member taken in
        (sismember c done.0 src j ≡ sismember c s src j)
        × (sismember c done.0 dst j ≡ (
            if is_true taken
            then map_ok (λ b. (member =ₛ j) || b) (sismember c s dst j)
            else sismember c s dst j))
        × (done.1 ≡ (if is_true taken then map_ok (λ b. true) (sismember c s dst j) else taken))
  unfolding smove_taken map_ok
  after_taken n v (err e) = (refl, refl, refl)
  after_taken n v (ok false) = (refl, refl, refl)
  after_taken n v (ok true) =
      let given = smove_give c s dst member in
      let f = give-Refines c s dst src member in
      let g = given_at member j (set_at c s dst) v in
      let x = ap (λ p. p.0) f.0 in
      (
        same_answer c s given.0 src j (rw n at f.1),
        sismember-set_at c given.0 dst j
            ∙ ap (map_ok (λ y. contains y j)) x
            ∙ g.0
            ∙ ap (map_ok (λ b. (member =ₛ j) || b)) (sym (sismember-set_at c s dst j)),
        ap (map_ok (λ u. true)) (ap (λ p. p.1) f.0)
            ∙ g.1
            ∙ ap (map_ok (λ b. true)) (sym (sismember-set_at c s dst j)),
      )

module _ {Z S : Type 0} (c : Clock) (s : Store Z S) (src dst member j : Bytes) where
  -- SMOVE between two keys that stand for sets in whole forms or for values of other types: the
  -- member leaves the source whatever the destination is; if it was there, a destination that is a
  -- set gets it and SMOVE says so, and a destination of another type still gives the error; if it
  -- was not, or the source is of another type, the destination stays.
  pub smove_lem :
      (src =ₛ dst) ≡ false
      → IsSetAt (set_at c s src)
      → IsSetAt (set_at c s dst)
      → let done = smove c s src dst member in
        let taken = sismember c s src member in
        (sismember c done.0 src j ≡ map_ok (λ b. not (member =ₛ j) && b) (sismember c s src j))
        × (sismember c done.0 dst j ≡ (
            if is_true taken
            then map_ok (λ b. (member =ₛ j) || b) (sismember c s dst j)
            else sismember c s dst j))
        × (done.1 ≡ (if is_true taken then map_ok (λ b. true) (sismember c s dst j) else taken))
  unfolding smove
  smove_lem n w v =
      let taking =
        modify s src (on_entry as_set set c (λ v. (v, ok false)) (take_member member)) false in
      let s1 = taking.0 in
      let f = take-Refines c s src dst member in
      let t = taken_at member j (set_at c s src) w in
      let e : taking.1 ≡ sismember c s src member =
        ap (λ p. p.1) f.0 ∙ t.1 ∙ sym (sismember-set_at c s src member) in
      let kept = rw n at f.1 in
      let v1 = subst IsSetAt (sym (same_set c s s1 dst kept)) v in
      let a = after_taken c s1 src dst member j (flip_false src dst n) v1 taking.1 in
      let d = same_answer c s s1 dst j kept in
      (
        a.0
            ∙ sismember-set_at c s1 src j
            ∙ ap (map_ok (λ x. contains x j)) (ap (λ p. p.0) f.0)
            ∙ t.0
            ∙ ap (map_ok (λ b. not (member =ₛ j) && b)) (sym (sismember-set_at c s src j)),
        a.1 ∙ rw (e, d) refl,
        a.2 ∙ rw (e, d) refl,
      )
