-- ===== src/Value/Collections/Hash/Fields.antt =====
-- A hash as a function from fields to values, in both of its forms.
use mathlib.Core.Path.{subst}
use flash_db.Base.{
  ◌≡◌, refl, ap, inl, inr, Bool, true, false, Option, none, some, List, [], ◌∷◌, ◌++◌, Bytes, ◌=ₛ◌,
  eq_iff, if◌then◌else◌, Bool-cases, apart,
}
use flash_db.Value.Collections.{HashInner, Pairs}
use flash_db.Value.Collections.Hash.{
  map_get, map_insert, flat_get, promote_loop, flat, flat_replace,
}

-- No field of the vector or of the map is `f`.
abbrev pub Lacks : Bytes → List Bytes → Type 0
Lacks f [] = Unit
Lacks f (k ∷ []) = ⊥
Lacks f (k ∷ x ∷ v) = ((k =ₛ f) ≡ false) × Lacks f v

-- The vector has whole pairs, and no field twice.
abbrev pub IsFlat : List Bytes → Type 0
IsFlat [] = Unit
IsFlat (k ∷ []) = ⊥
IsFlat (k ∷ x ∷ v) = Lacks k v × IsFlat v

abbrev pub IsHash : HashInner → Type 0
IsHash (HashInner.compact v) = IsFlat v
IsHash (HashInner.full m) = IsFlat (flat m)

pub flat_get-flat : (f : Bytes) (m : Pairs) → flat_get f (flat m) ≡ map_get f m
unfolding flat_get flat map_get
flat_get-flat f [] = refl
flat_get-flat f ((k, x) ∷ m) = ap (λ o. if k =ₛ f then some x else o) (flat_get-flat f m)

pub flat_get-Lacks : (f : Bytes) (v : List Bytes) → Lacks f v → flat_get f v ≡ none
unfolding flat_get
flat_get-Lacks f [] h = refl
flat_get-Lacks f (k ∷ []) h = absurd h
flat_get-Lacks f (k ∷ x ∷ v) h = rw h.0 (flat_get-Lacks f v h.1)

pub Lacks-flat_get : (f : Bytes) (v : List Bytes) → IsFlat v → flat_get f v ≡ none → Lacks f v
unfolding flat_get
Lacks-flat_get f [] w h = tt
Lacks-flat_get f (k ∷ []) w h = absurd w
Lacks-flat_get f (k ∷ x ∷ v) w h = elim (Bool-cases (k =ₛ f)) [
  | inl e ↦ absurd (found k x (k =ₛ f) (flat_get f v) e h)
  | inr e ↦ (e, Lacks-flat_get f v w.1 (rw e at h))
]
  where
    found :
        (k x : Bytes) (b : Bool) (o : Option Bytes)
        → b ≡ true
        → (if b then some x else o) ≡ none
        → ⊥
    found k x b o e h = cc

pub if_same :
    (b : Bool) (x y z : Option Bytes) → (if b then x else z) ≡ (if b then x else if b then y else z)
if_same true x y z = refl
if_same false x y z = refl

pub if_swap :
    (b c : Bool) (x y z : Option Bytes)
    → (b ≡ true → c ≡ true → ⊥)
    → (if b then x else if c then y else z) ≡ (if c then y else if b then x else z)
if_swap true true x y z h = absurd (h refl refl)
if_swap true false x y z h = refl
if_swap false true x y z h = refl
if_swap false false x y z h = refl

pub map_get-map_insert :
    (f j x : Bytes) (m : Pairs)
    → map_get j (map_insert f x m) ≡ (if f =ₛ j then some x else map_get j m)
unfolding map_get map_insert
map_get-map_insert f j x [] = refl
map_get-map_insert f j x ((k, y) ∷ m) = elim (Bool-cases (k =ₛ f)) [
  | inl e ↦ rw (e, (eq_iff k f).0 e) (if_same (f =ₛ j) (some x) (some y) (map_get j m))
  | inr e ↦
      rw (e, map_get-map_insert f j x m)
        (if_swap (k =ₛ j) (f =ₛ j) (some y) (some x) (map_get j m) (apart k f j e))
]

pub flat_get-flat_replace :
    (f j x y : Bytes) (v : List Bytes)
    → flat_get f v ≡ some y
    → flat_get j (flat_replace f x v) ≡ (if f =ₛ j then some x else flat_get j v)
unfolding flat_get flat_replace
flat_get-flat_replace f j x y [] h = cc
flat_get-flat_replace f j x y (k ∷ []) h = cc
flat_get-flat_replace f j x y (k ∷ z ∷ v) h = elim (Bool-cases (k =ₛ f)) [
  | inl e ↦ rw (e, (eq_iff k f).0 e) (if_same (f =ₛ j) (some x) (some z) (flat_get j v))
  | inr e ↦
      rw (e, flat_get-flat_replace f j x y v (rw e at h))
        (if_swap (k =ₛ j) (f =ₛ j) (some z) (some x) (flat_get j v) (apart k f j e))
]

pub flat_get-append :
    (f j x : Bytes) (v : List Bytes)
    → IsFlat v
    → Lacks f v
    → flat_get j (v ++ f ∷ x ∷ []) ≡ (if f =ₛ j then some x else flat_get j v)
unfolding flat_get
flat_get-append f j x [] w h = refl
flat_get-append f j x (k ∷ []) w h = absurd w
flat_get-append f j x (k ∷ z ∷ v) w h =
    rw (flat_get-append f j x v w.1 h.1)
      (if_swap (k =ₛ j) (f =ₛ j) (some z) (some x) (flat_get j v) (apart k f j h.0))

abbrev pub or_else : Option Bytes → Option Bytes → Option Bytes
or_else none d = d
or_else (some x) d = some x

pub map_get-promote_loop :
    (j : Bytes) (v : List Bytes) (m : Pairs)
    → IsFlat v
    → map_get j (promote_loop v m) ≡ or_else (flat_get j v) (map_get j m)
unfolding flat_get promote_loop
map_get-promote_loop j [] m w = refl
map_get-promote_loop j (k ∷ []) m w = absurd w
map_get-promote_loop j (k ∷ x ∷ v) m w =
    rw (map_get-promote_loop j v (map_insert k x m) w.1, map_get-map_insert k j x m)
      (elim (Bool-cases (k =ₛ j)) [
        | inl e ↦ rw (e, flat_get-Lacks j v (subst (λ t. Lacks t v) ((eq_iff k j).0 e) w.0)) refl
        | inr e ↦ rw e refl
      ])
