-- ===== src/Store/Sets/Changes.antt =====
-- SADD, SREM and SPOP as functions on the set that a key stands for.
use flash_db.Base.{
  ℕ, ◌+◌, ◌≡◌, refl, false, not, ◌||◌, ◌&&◌, some, List, [], ◌∷◌, Bytes, if◌then◌else◌, arith,
}
use flash_db.Value.{set, Clock, is_expired, as_set}
use flash_db.Value.Collections.{SetInner}
use flash_db.Value.Collections.Set.{
  new, insert, remove, remove_integer, binary_search, len, iter, member_of,
}
use flash_db.Value.Collections.Set.Laws.{IsSetInner}
use flash_db.Value.Collections.Set.Insertion.{insert-Inserted}
use flash_db.Value.Collections.Set.Removal.{remove-Removed}
use flash_db.Store.{Store, Result, ok, err}
use flash_db.Store.Update.Refine
use flash_db.Store.Update.Refine.{view, held, outcome, Refines, EntryRefines}
use flash_db.Store.Sets.{
  insert_loop, remove_loop, added_members, removed_members, fresh_set, sadd, sadd_entry,
  sadd_expired, srem, srem_entry,
}

pub view-fresh_set :
    (Z S : Type 0) (c : Clock) (x : SetInner)
    → view as_set new c (some (fresh_set {Z = Z} {S = S} x)) ≡ ok x
unfolding view is_expired as_set
view-fresh_set Z S c x = refl

pub as_set-set : (Z S : Type 0) (x : SetInner) → as_set {Z = Z} {S = S} (set x) ≡ some x
unfolding as_set
as_set-set Z S x = refl

pub remove-new : (m : Bytes) → remove new m ≡ (new, false)
unfolding remove new remove_integer binary_search
remove-new m = ground arith

remove_loop-new : (members : List Bytes) (n : ℕ) → remove_loop members new n ≡ (new, n)
unfolding remove_loop
remove_loop-new [] n = refl
remove_loop-new (m ∷ members) n = rw (remove-new m) (remove_loop-new members n)

module _ {Z S : Type 0} where
  abbrev pub set_at : Clock → Store Z S → Bytes → Result SetInner
  set_at = held as_set new

  pub sadd-Refines :
      (c : Clock) (s : Store Z S) (key j : Bytes) (members : List Bytes)
      → Refines as_set new c s key (sadd c s key members) (added_members members) j
  unfolding sadd sadd_entry sadd_expired outcome added_members view
  sadd-Refines c s key j members =
      let x = insert_loop members new 0 in
      Refine.upsert-Refines as_set new c s key j (sadd_entry c members) (fresh_set x.0) x.1
        (added_members members)
        (Refine.on_entry-EntryRefines as_set new set c (sadd_expired members)
          (added_members members) (as_set-set Z S) (λ v e. rw (view-fresh_set Z S c x.0) refl))
        (rw (view-fresh_set Z S c x.0) refl)

  pub srem-Refines :
      (c : Clock) (s : Store Z S) (key j : Bytes) (members : List Bytes)
      → Refines as_set new c s key (srem c s key members) (removed_members members) j
  unfolding srem srem_entry outcome removed_members view
  srem-Refines c s key j members =
      Refine.modify-Refines as_set new c s key j (srem_entry c members) 0 (removed_members members)
        (Refine.on_entry-EntryRefines as_set new set c (λ v. (v, ok 0)) (removed_members members)
          (as_set-set Z S)
          (λ v e. rw (Refine.view_expired as_set new c v e) (rw (remove_loop-new members 0) refl)))
        (rw (remove_loop-new members 0) refl)

-- The result of a command and what SCARD returned, added up.
abbrev pub plus : Result ℕ → Result ℕ → Result ℕ
plus (ok a) (ok b) = ok (a + b)
plus (ok a) (err e) = err e
plus (err e) r = err e

-- The set that a key stands for, if it stands for one, has its form whole.
abbrev pub IsSetAt : Result SetInner → Type 0
IsSetAt (ok x) = IsSetInner x
IsSetAt (err e) = Unit

pub insert_loop_lem :
    (members : List Bytes) (s : SetInner) (n : ℕ)
    → IsSetInner s
    → let done = insert_loop members s n in
      IsSetInner done.0
      × ((j : Bytes) → member_of j (iter done.0) ≡ (member_of j members || member_of j (iter s)))
      × (len done.0 + n ≡ len s + done.1)
unfolding insert_loop member_of
insert_loop_lem [] s n w = (w, λ j. refl, refl)
insert_loop_lem (m ∷ members) s n w =
    let i = insert-Inserted s m w in
    let k = if (insert s m).1 then n + 1 else n in
    let l = insert_loop_lem members (insert s m).0 k i.whole in
    (l.0, λ j. ground (arith, l.1 j, i.members j), ground (arith, l.2, i.counts))

pub remove_loop_lem :
    (members : List Bytes) (s : SetInner) (n : ℕ)
    → IsSetInner s
    → let done = remove_loop members s n in
      IsSetInner done.0
      × ((j : Bytes)
          → member_of j (iter done.0) ≡ (not (member_of j members) && member_of j (iter s)))
      × (len s + n ≡ len done.0 + done.1)
unfolding remove_loop member_of
remove_loop_lem [] s n w = (w, λ j. refl, refl)
remove_loop_lem (m ∷ members) s n w =
    let i = remove-Removed s m w in
    let k = if (remove s m).1 then n + 1 else n in
    let l = remove_loop_lem members (remove s m).0 k i.whole in
    (l.0, λ j. ground (arith, l.1 j, i.members j), ground (arith, l.2, i.counts))
