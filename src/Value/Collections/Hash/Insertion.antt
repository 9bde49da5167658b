-- ===== src/Value/Collections/Hash/Insertion.antt =====
-- Insertion into a hash, in both of its forms.
use flash_db.Base.{
  ◌≡◌, refl, ◌∙◌, inl, inr, Bool, true, false, Option, none, some, List, [], ◌∷◌, ◌++◌, Bytes, ltb,
  ◌=ₛ◌, if◌then◌else◌, Bool-cases, flip_false,
}
use flash_db.Value.Collections.{HashInner, Pairs, compact_threshold}
use flash_db.Value.Collections.Hash.{
  map_get, map_insert, flat_get, get, promote_loop, promote_hash, flat, flat_replace, pushed_hash,
  insert_small, pairs_len,
}
use flash_db.Value.Collections.Hash.Fields.{
  Lacks, IsFlat, IsHash, Lacks-flat_get, map_get-map_insert, flat_get-flat_replace, flat_get-append,
  or_else, map_get-promote_loop,
}

Lacks-append :
    (g f x : Bytes) (v : List Bytes) → (f =ₛ g) ≡ false → Lacks g v → Lacks g (v ++ f ∷ x ∷ [])
Lacks-append g f x [] n h = (n, tt)
Lacks-append g f x (k ∷ []) n h = absurd h
Lacks-append g f x (k ∷ y ∷ v) n h = (h.0, Lacks-append g f x v n h.1)

IsFlat-append : (f x : Bytes) (v : List Bytes) → IsFlat v → Lacks f v → IsFlat (v ++ f ∷ x ∷ [])
IsFlat-append f x [] w h = (tt, tt)
IsFlat-append f x (k ∷ []) w h = absurd w
IsFlat-append f x (k ∷ y ∷ v) w h =
    (Lacks-append k f x v (flip_false k f h.0) w.0, IsFlat-append f x v w.1 h.1)

Lacks-flat_replace : (g f x : Bytes) (v : List Bytes) → Lacks g v → Lacks g (flat_replace f x v)
unfolding flat_replace
Lacks-flat_replace g f x [] h = tt
Lacks-flat_replace g f x (k ∷ []) h = absurd h
Lacks-flat_replace g f x (k ∷ y ∷ v) h = elim (Bool-cases (k =ₛ f)) [
  | inl e ↦ rw e h
  | inr e ↦ rw e (h.0, Lacks-flat_replace g f x v h.1)
]

flat_replace-IsFlat : (f x : Bytes) (v : List Bytes) → IsFlat v → IsFlat (flat_replace f x v)
unfolding flat_replace
flat_replace-IsFlat f x [] w = tt
flat_replace-IsFlat f x (k ∷ []) w = absurd w
flat_replace-IsFlat f x (k ∷ y ∷ v) w = elim (Bool-cases (k =ₛ f)) [
  | inl e ↦ rw e w
  | inr e ↦ rw e (Lacks-flat_replace k f x v w.0, flat_replace-IsFlat f x v w.1)
]

Lacks-map_insert :
    (g f x : Bytes) (m : Pairs)
    → (f =ₛ g) ≡ false
    → Lacks g (flat m)
    → Lacks g (flat (map_insert f x m))
unfolding flat map_insert
Lacks-map_insert g f x [] n h = (n, tt)
Lacks-map_insert g f x ((k, y) ∷ m) n h = elim (Bool-cases (k =ₛ f)) [
  | inl e ↦ rw e h
  | inr e ↦ rw e (h.0, Lacks-map_insert g f x m n h.1)
]

map_insert-IsFlat : (f x : Bytes) (m : Pairs) → IsFlat (flat m) → IsFlat (flat (map_insert f x m))
unfolding flat map_insert
map_insert-IsFlat f x [] w = (tt, tt)
map_insert-IsFlat f x ((k, y) ∷ m) w = elim (Bool-cases (k =ₛ f)) [
  | inl e ↦ rw e w
  | inr e ↦ rw e (Lacks-map_insert k f x m (flip_false k f e) w.0, map_insert-IsFlat f x m w.1)
]

promote_loop-IsFlat :
    (v : List Bytes) (m : Pairs) → IsFlat (flat m) → IsFlat (flat (promote_loop v m))
unfolding promote_loop
promote_loop-IsFlat [] m w = w
promote_loop-IsFlat (k ∷ []) m w = w
promote_loop-IsFlat (k ∷ x ∷ v) m w =
    promote_loop-IsFlat v (map_insert k x m) (map_insert-IsFlat k x m w)

or_none : (o : Option Bytes) → or_else o none ≡ o
or_none none = refl
or_none (some x) = refl

empty_flat : IsFlat (flat [])
unfolding flat
empty_flat = tt

pushed_hash_lem :
    (v : List Bytes) (j : Bytes)
    → IsFlat v
    → (get (pushed_hash v) j ≡ flat_get j v) × IsHash (pushed_hash v)
unfolding get pushed_hash promote_hash map_get
pushed_hash_lem v j w = elim (Bool-cases (ltb compact_threshold (pairs_len v))) [
  | inl e ↦ rw e (
    map_get-promote_loop j v [] w ∙ or_none (flat_get j v),
    promote_loop-IsFlat v [] (empty_flat),
  )
  | inr e ↦ rw e (refl, w)
]

-- The outcome of an insertion into a vector, by what the field holds.
compact_insert :
    (v : List Bytes) (field value j : Bytes) (o : Option Bytes)
    → IsFlat v
    → flat_get field v ≡ o
    → let done : HashInner × Bool = elim o [
      | some x ↦ (HashInner.compact (flat_replace field value v), false)
      | none ↦ (pushed_hash (v ++ field ∷ value ∷ []), true)
    ] in
      (get done.0 j ≡ (if field =ₛ j then some value else flat_get j v))
      × IsHash done.0
      × (done.1 ≡ (elim o [ none ↦ true | some x ↦ false ]))
unfolding get
compact_insert v field value j none w e =
    let a = Lacks-flat_get field v w e in
    let p = pushed_hash_lem (v ++ field ∷ value ∷ []) j (IsFlat-append field value v w a) in
    (p.0 ∙ flat_get-append field j value v w a, p.1, refl)
compact_insert v field value j (some y) w e =
    (flat_get-flat_replace field j value y v e, flat_replace-IsFlat field value v w, refl)

-- `insert_small` on a hash with no field twice, compact or full, sets the field and no other,
-- across the promotion to the full form, keeps every field once, and returns whether the field was
-- new.
pub insert_small_lem :
    (h : HashInner) (field value j : Bytes)
    → IsHash h
    → (get (insert_small h field value).0 j ≡ (if field =ₛ j then some value else get h j))
      × IsHash (insert_small h field value).0
      × ((insert_small h field value).1 ≡ (elim (get h field) [ none ↦ true | some x ↦ false ]))
unfolding get insert_small
insert_small_lem (HashInner.compact v) field value j w =
    compact_insert v field value j (flat_get field v) w refl
insert_small_lem (HashInner.full m) field value j w =
    (map_get-map_insert field j value m, map_insert-IsFlat field value m w, refl)
