-- ===== src/Value/Collections/Hash/Removal.antt =====
-- Removal from a hash, in both of its forms.
use mathlib.Core.Path.{subst}
use flash_db.Base.{
  ◌/◌, ◌≡◌, refl, sym, ap, ◌∙◌, inl, inr, Bool, true, false, Option, none, some, List, [], ◌∷◌,
  Bytes, length, ltb, ◌=ₛ◌, eq_iff, if◌then◌else◌, Bool-cases, apart, flip_false,
}
use flash_db.Value.Collections.{HashInner, Pairs, compact_threshold}
use flash_db.Value.Collections.Hash.{
  map_remove, flat_get, get, flat, demote_hash, split_last, swap_pop, flat_remove, remove,
}
use flash_db.Value.Collections.Hash.Fields.{
  Lacks, IsFlat, IsHash, flat_get-flat, flat_get-Lacks, if_swap,
}

-- What `split_last` takes apart.
abbrev LastPost : List Bytes → Option (Bytes × Bytes × List Bytes) → Type 0
LastPost v none = v ≡ []
LastPost v (some (l, y, w)) =
    ((f : Bytes) → Lacks f v → ((l =ₛ f) ≡ false) × Lacks f w)
    × Lacks l w
    × IsFlat w
    × ((j : Bytes) → flat_get j v ≡ (if l =ₛ j then some y else flat_get j w))

last_step :
    (k x : Bytes) (v : List Bytes) (o : Option (Bytes × Bytes × List Bytes))
    → Lacks k v
    → LastPost v o
    → LastPost
        (k ∷ x ∷ v)
        (elim o [ none ↦ some (k, x, []) | some (l, y, w) ↦ some (l, y, k ∷ x ∷ w) ])
unfolding flat_get
last_step k x v none a p = (λ f h. (h.0, tt), tt, tt, λ j. rw p refl)
last_step k x v (some (l, y, w)) a p =
    let (keeps, fresh, whole, found) = p in
    let (n, b) = keeps k a in
    (
      λ f h. ((keeps f h.1).0, (h.0, (keeps f h.1).1)),
      (flip_false l k n, fresh),
      (b, whole),
      λ j. rw (found j) (
          if_swap (k =ₛ j) (l =ₛ j) (some x) (some y) (flat_get j w)
            (apart k l j (flip_false l k n))),
    )

split_last-LastPost : (v : List Bytes) → IsFlat v → LastPost v (split_last v)
unfolding split_last
split_last-LastPost [] w = refl
split_last-LastPost (k ∷ []) w = absurd w
split_last-LastPost (k ∷ x ∷ v) w = last_step k x v (split_last v) w.0 (split_last-LastPost v w.1)

-- The pair that `swap_pop` moves to the front is found there as it was.
swap_pop_lem :
    (v : List Bytes) (o : Option (Bytes × Bytes × List Bytes))
    → LastPost v o
    → let moved : List Bytes = elim o [ none ↦ [] | some (l, y, w) ↦ l ∷ y ∷ w ] in
      IsFlat moved
      × ((f : Bytes) → Lacks f v → Lacks f moved)
      × ((j : Bytes) → flat_get j moved ≡ flat_get j v)
unfolding flat_get
swap_pop_lem v none p = (tt, λ f h. tt, λ j. rw p refl)
swap_pop_lem v (some (l, y, w)) p =
    let (keeps, fresh, whole, found) = p in ((fresh, whole), keeps, λ j. sym (found j))

-- What `remove` makes of a vector.
record Removed (f : Bytes) (v v' : List Bytes) : Type 0 where
  whole : IsFlat v'
  keeps : (g : Bytes) → Lacks g v → Lacks g v'
  found : (j : Bytes) → flat_get j v' ≡ (if f =ₛ j then none else flat_get j v)

none_lem : (b : Bool) → ◌≡◌ {A = Option Bytes} none (if b then none else none)
none_lem true = refl
none_lem false = refl

first_removed :
    (f k x j : Bytes) (v : List Bytes)
    → (k =ₛ f) ≡ true
    → Lacks k v
    → flat_get j v ≡ (if f =ₛ j then none else if k =ₛ j then some x else flat_get j v)
first_removed f k x j v e a =
    let same = (eq_iff k f).0 e in
    subst (λ t. flat_get j v ≡ (if t =ₛ j then none else if k =ₛ j then some x else flat_get j v))
      same
      (elim (Bool-cases (k =ₛ j)) [
        | inl y ↦ rw y (flat_get-Lacks j v (subst (λ t. Lacks t v) ((eq_iff k j).0 y) a))
        | inr y ↦ rw y refl
      ])

flat_remove-Removed : (f : Bytes) (v : List Bytes) → IsFlat v → Removed f v (flat_remove f v)
unfolding flat_remove swap_pop flat_get
flat_remove-Removed f [] w = record { whole = tt; keeps = λ g h. h; found = λ j. none_lem (f =ₛ j) }
flat_remove-Removed f (k ∷ []) w = absurd w
flat_remove-Removed f (k ∷ x ∷ v) w = elim (Bool-cases (k =ₛ f)) [
  | inl e ↦
      let (whole, keeps, found) = swap_pop_lem v (split_last v) (split_last-LastPost v w.1) in
      rw e (record {
        whole = whole;
        keeps = λ g h. keeps g h.1;
        found = λ j. found j ∙ first_removed f k x j v e w.0;
      })
  | inr e ↦
      let r = flat_remove-Removed f v w.1 in
      rw e (record {
        whole = (r.keeps k w.0, r.whole);
        keeps = λ g h. (h.0, r.keeps g h.1);
        found = λ j.
            rw (r.found j) (if_swap (k =ₛ j) (f =ₛ j) (some x) none (flat_get j v) (apart k f j e));
      })
]

map_remove-Removed :
    (f : Bytes) (m : Pairs) → IsFlat (flat m) → Removed f (flat m) (flat (map_remove f m))
unfolding flat map_remove flat_get
map_remove-Removed f [] w = record { whole = tt; keeps = λ g h. h; found = λ j. none_lem (f =ₛ j) }
map_remove-Removed f ((k, x) ∷ m) w = elim (Bool-cases (k =ₛ f)) [
  | inl e ↦ rw e (record {
    whole = w.1;
    keeps = λ g h. h.1;
    found = λ j. first_removed f k x j (flat m) e w.0;
  })
  | inr e ↦
      let r = map_remove-Removed f m w.1 in
      rw e (record {
        whole = (r.keeps k w.0, r.whole);
        keeps = λ g h. (h.0, r.keeps g h.1);
        found = λ j.
            rw (r.found j)
              (if_swap (k =ₛ j) (f =ₛ j) (some x) none (flat_get j (flat m)) (apart k f j e));
      })
]

demoted :
    (m : Pairs) (j : Bytes)
    → (get (demote_hash m) j ≡ flat_get j (flat m)) × (IsFlat (flat m) → IsHash (demote_hash m))
unfolding get demote_hash
demoted m j = elim (Bool-cases (ltb (compact_threshold / 2) (length m))) [
  | inl e ↦ rw e (sym (flat_get-flat j m), λ w. w)
  | inr e ↦ rw e (refl, λ w. w)
]

-- `remove` on a hash with no field twice, compact or full, takes away the field and no other,
-- across the swap with the last pair and the return to the compact form, and keeps every field
-- once.
pub remove_lem :
    (h : HashInner) (field j : Bytes)
    → IsHash h
    → (get (remove h field).0 j ≡ (if field =ₛ j then none else get h j))
      × IsHash (remove h field).0
unfolding get remove
remove_lem (HashInner.compact v) field j w =
    let r = flat_remove-Removed field v w in (r.found j, r.whole)
remove_lem (HashInner.full m) field j w =
    let r = map_remove-Removed field m w in
    let d = demoted (map_remove field m) j in
    (d.0 ∙ r.found j ∙ ap (λ o. if field =ₛ j then none else o) (flat_get-flat j m), d.1 r.whole)
