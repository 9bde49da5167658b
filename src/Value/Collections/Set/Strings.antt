-- ===== src/Value/Collections/Set/Strings.antt =====
-- The vector of strings and the `HashSet`: what insertion and removal leave.
use mathlib.Core.Path.{subst}
use flash_db.Base.{
  ℕ, suc, ◌+◌, ◌≡◌, refl, sym, ap, ◌∙◌, inl, inr, Bool, true, false, not, ◌||◌, ◌&&◌, Option, none,
  some, List, [], ◌∷◌, ◌++◌, Bytes, length, length-append, ◌=ₛ◌, eq_iff, eq_refl, apart, flip_false,
  Bool-cases, arith,
}
use flash_db.Value.Collections.Set.{
  member_of, set_insert, set_remove, promote_loop, position, split_last, swap_remove,
}
use flash_db.Value.Collections.Set.Members.{
  IsDistinct, IsDistinct-append, member_of-append, member_of-eq, member_of-or, or_swap, except_or,
}

-- `w` has the members of `v` without `m`, as often, and no other.
pub record Lost (m : Bytes) (v w : List Bytes) : Type 0 where
  pub once : IsDistinct w
  pub keeps : (j : Bytes) → member_of j w ≡ (not (m =ₛ j) && member_of j v)
  pub shorter : length v ≡ suc (length w)

-- The first member in front of the others.
Lost-first :
    (m x : Bytes) (v : List Bytes) → (x =ₛ m) ≡ true → IsDistinct (x ∷ v) → Lost m (x ∷ v) v
unfolding member_of
Lost-first m x v e d = record { once = d.1; keeps = λ j. without j; shorter = refl }
  where
    same : x ≡ m
    same = (eq_iff x m).0 e

    without : (j : Bytes) → member_of j v ≡ (not (m =ₛ j) && ((x =ₛ j) || member_of j v))
    without j = elim (Bool-cases (m =ₛ j)) [
      | inl k ↦ rw k (sym (member_of-eq m j v k) ∙ ap (λ t. member_of t v) (sym same) ∙ d.0)
      | inr k ↦ rw (k, same, k) refl
    ]

Lost-cons :
    (m x : Bytes) (v w : List Bytes)
    → (x =ₛ m) ≡ false
    → IsDistinct (x ∷ v)
    → Lost m v w
    → Lost m (x ∷ v) (x ∷ w)
unfolding member_of
Lost-cons m x v w n d l = record {
  once = (ground (arith, l.keeps x), l.once);
  keeps = λ j.
      rw (l.keeps j) (except_or (m =ₛ j) (x =ₛ j) (member_of j v) (apart m x j (flip_false x m n)));
  shorter = ap suc l.shorter;
}

-- What `split_last` takes apart has the same members, also where the last is put first.
abbrev pub LastPost : List Bytes → Option (Bytes × List Bytes) → Type 0
LastPost v none = v ≡ []
LastPost v (some (l, w)) =
    ((j : Bytes) → member_of j v ≡ member_of j (l ∷ w))
    × (IsDistinct v → IsDistinct (l ∷ w))
    × (length v ≡ suc (length w))

last_step :
    (x : Bytes) (v : List Bytes) (o : Option (Bytes × List Bytes))
    → LastPost v o
    → LastPost (x ∷ v) (elim o [ none ↦ some (x, []) | some (l, w) ↦ some (l, x ∷ w) ])
unfolding member_of
last_step x v none p = rw p (λ j. refl, λ d. d, refl)
last_step x v (some (l, w)) p = (
  λ j. rw (p.0 j) (or_swap (l =ₛ j) (x =ₛ j) (member_of j w)),
  λ d. (let e = p.1 d.1 in (ground (arith, p.0 x, flip_false l x), (ground (arith, p.0 x), e.1))),
  ap suc p.2,
)

split_last-LastPost : (v : List Bytes) → LastPost v (split_last v)
unfolding split_last
split_last-LastPost [] = refl
split_last-LastPost (x ∷ v) = last_step x v (split_last v) (split_last-LastPost v)

-- What `position` finds, and what `swap_remove` does there.
abbrev pub PositionPost : Bytes → List Bytes → Option ℕ → Type 0
PositionPost m v none = member_of m v ≡ false
PositionPost m v (some i) = (member_of m v ≡ true) × (IsDistinct v → Lost m v (swap_remove i v))

pub position-PositionPost : (m : Bytes) (v : List Bytes) → PositionPost m v (position m v)
unfolding position member_of swap_remove
position-PositionPost m [] = refl
position-PositionPost m (x ∷ v) = elim (Bool-cases (x =ₛ m)) [
  | inl e ↦ rw e (rw e refl, λ d. first m x v e d (split_last v) (split_last-LastPost v))
  | inr e ↦ rw e (later m x v e (position m v) (position-PositionPost m v))
]
  where
    first :
        (m x : Bytes) (v : List Bytes)
        → (x =ₛ m) ≡ true
        → IsDistinct (x ∷ v)
        → (o : Option (Bytes × List Bytes)) → LastPost v o
        → Lost m (x ∷ v) (elim o [ none ↦ [] | some (l, w) ↦ l ∷ w ])
    first m x v e d none p = let l = Lost-first m x v e d in subst (Lost m (x ∷ v)) p l
    first m x v e d (some (l, w)) p =
        let q = Lost-first m x v e d in
        record { once = p.1 d.1; keeps = λ j. sym (p.0 j) ∙ q.keeps j; shorter = ap suc p.2 }

    later :
        (m x : Bytes) (v : List Bytes)
        → (x =ₛ m) ≡ false
        → (o : Option ℕ) → PositionPost m v o
        → PositionPost m (x ∷ v) (elim o [ none ↦ none | some i ↦ some (suc i) ])
    later m x v e none p = rw e (p)
    later m x v e (some i) p = (rw e (p.0), λ d. Lost-cons m x v (swap_remove i v) e d (p.1 d.1))

-- `set_remove` of a member
pub set_remove-Lost :
    (m : Bytes) (s : List Bytes) → IsDistinct s → member_of m s ≡ true → Lost m s (set_remove m s)
unfolding set_remove member_of
set_remove-Lost m [] d h = cc
set_remove-Lost m (x ∷ s) d h = elim (Bool-cases (x =ₛ m)) [
  | inl e ↦ rw e (Lost-first m x s e d)
  | inr e ↦ rw e (Lost-cons m x s (set_remove m s) e d (set_remove-Lost m s d.1 (rw e at h)))
]

pub set_remove_absent : (m : Bytes) (s : List Bytes) → member_of m s ≡ false → set_remove m s ≡ s
unfolding set_remove member_of
set_remove_absent m [] h = refl
set_remove_absent m (x ∷ s) h = ground (arith, set_remove_absent m s)

pub set_insert_lem :
    (m : Bytes) (s : List Bytes)
    → IsDistinct s
    → IsDistinct (set_insert m s)
      × ((j : Bytes) → member_of j (set_insert m s) ≡ ((m =ₛ j) || member_of j s))
unfolding set_insert member_of
set_insert_lem m s d = elim (Bool-cases (member_of m s)) [
  | inl e ↦ (rw e d, λ j. rw e (member_of-or m j s e))
  | inr e ↦
      (rw e (IsDistinct-append m s d e), λ j. rw (e, member_of-append j s (m ∷ [])) (ground arith))
]

pub promote_loop_lem :
    (v s : List Bytes)
    → IsDistinct s
    → IsDistinct (promote_loop v s)
      × ((j : Bytes) → member_of j (promote_loop v s) ≡ (member_of j v || member_of j s))
unfolding promote_loop member_of
promote_loop_lem [] s d = (d, λ j. refl)
promote_loop_lem (x ∷ v) s d =
    let i = set_insert_lem x s d in
    let p = promote_loop_lem v (set_insert x s) i.0 in (p.0, λ j. ground (arith, p.1 j, i.1 j))

clash : (b : Bool) → b ≡ false → b ≡ true → ⊥
clash b h k = cc

-- Where no string is there twice, the loop keeps the number of strings.
pub length-promote_loop :
    (v s : List Bytes)
    → IsDistinct v
    → ((j : Bytes) → member_of j v ≡ true → member_of j s ≡ false)
    → length (promote_loop v s) ≡ length v + length s
unfolding promote_loop set_insert member_of
length-promote_loop [] s d a = omega arith
length-promote_loop (x ∷ v) s d a =
    let fresh : member_of x s ≡ false = a x (rw (eq_refl x) refl) in
    let later =
      length-promote_loop v (s ++ x ∷ []) d.1
        (λ j h. rw (member_of-append j s (x ∷ [])) (others j h)) in
    rw fresh (omega (arith, later, length-append s (x ∷ [])))
  where
    others : (j : Bytes) → member_of j v ≡ true → (member_of j s || ((x =ₛ j) || false)) ≡ false
    others j h = elim (Bool-cases (x =ₛ j)) [
      | inl e ↦ absurd (clash (member_of j v) (sym (member_of-eq x j v e) ∙ d.0) h)
      | inr e ↦ rw (e, a j (rw (e, h) refl)) refl
    ]
