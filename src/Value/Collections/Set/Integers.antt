-- ===== src/Value/Collections/Set/Integers.antt =====
-- The ascending vector of integers, and the binary search in it.
use flash_db.Base.{
  suc, ◌≡◌, refl, sym, ap, ◌∙◌, inl, inr, true, false, not, ◌||◌, ◌&&◌, List, [], ◌∷◌, map, Bytes,
  length, ◌=ₛ◌, eq_iff, eq_refl, flip_false, apart, Bool-cases, arith,
}
use flash_db.Base.Int.{ℤ, ltb_ℤ, eqb_ℤ, eq_of_parts}
use flash_db.Resp.Number.Parse.{in_i64}
use flash_db.Resp.Replies.{signed}
use flash_db.Value.Collections.Set.{
  Search, found, missing, shifted, binary_search, canonical_i64, member_of, insert_at, remove_at,
}
use flash_db.Value.Collections.Set.Members.{or_swap, except_or, canonical_i64-signed, member_of-eq}

abbrev pub IsAbove : ℤ → List ℤ → Type 0
IsAbove x [] = Unit
IsAbove x (y ∷ v) = (ltb_ℤ x y ≡ true) × IsAbove x v

-- 64-bit integers, each less than all behind it.
abbrev pub IsAscending : List ℤ → Type 0
IsAscending [] = Unit
IsAscending (x ∷ v) = (in_i64 x ≡ true) × IsAbove x v × IsAscending v

ltb_ℤ_trans : (a b c : ℤ) → ltb_ℤ a b ≡ true → ltb_ℤ b c ≡ true → ltb_ℤ a c ≡ true
ltb_ℤ_trans a b c h k = ground arith

IsAbove-trans : (n x : ℤ) (v : List ℤ) → ltb_ℤ n x ≡ true → IsAbove x v → IsAbove n v
IsAbove-trans n x [] h a = tt
IsAbove-trans n x (y ∷ v) h a = (ltb_ℤ_trans n x y h a.0, IsAbove-trans n x v h a.1)

signed_inj : (x y : ℤ) → in_i64 x ≡ true → in_i64 y ≡ true → signed x ≡ signed y → x ≡ y
signed_inj x y h k e =
    let a = canonical_i64-signed x h in
    let b = canonical_i64-signed y k in let c = ap canonical_i64 e in cc

-- The texts of two 64-bit integers, one less than the other, differ.
signed-ne :
    (x y : ℤ)
    → in_i64 x ≡ true
    → in_i64 y ≡ true
    → ltb_ℤ x y ≡ true
    → (signed y =ₛ signed x) ≡ false
signed-ne x y h k l = elim (Bool-cases (signed y =ₛ signed x)) [
  | inl e ↦ absurd (less_self x y (signed_inj y x k h ((eq_iff (signed y) (signed x)).0 e)) l)
  | inr e ↦ e
]
  where
    less_self : (x y : ℤ) → y ≡ x → ltb_ℤ x y ≡ true → ⊥
    less_self x y e l = ground arith

pub member_of-IsAbove :
    (x : ℤ) (v : List ℤ)
    → in_i64 x ≡ true
    → IsAbove x v
    → IsAscending v
    → member_of (signed x) (map signed v) ≡ false
unfolding member_of
member_of-IsAbove x [] h a s = refl
member_of-IsAbove x (y ∷ v) h a s = rw (signed-ne x y h s.0 a.0) (member_of-IsAbove x v h a.1 s.2)

abbrev pub SearchPost : ℤ → List ℤ → Search → Type 0
SearchPost n v (found pos) =
    (member_of (signed n) (map signed v) ≡ true)
    × IsAscending (remove_at pos v)
    × ((x : ℤ) → IsAbove x v → IsAbove x (remove_at pos v))
    × ((j : Bytes)
        → member_of j (map signed (remove_at pos v))
          ≡ (not (signed n =ₛ j) && member_of j (map signed v)))
    × (length v ≡ suc (length (remove_at pos v)))
SearchPost n v (missing pos) =
    (member_of (signed n) (map signed v) ≡ false)
    × IsAscending (insert_at pos n v)
    × ((x : ℤ) → IsAbove x v → ltb_ℤ x n ≡ true → IsAbove x (insert_at pos n v))
    × ((j : Bytes)
        → member_of j (map signed (insert_at pos n v))
          ≡ ((signed n =ₛ j) || member_of j (map signed v)))
    × (length (insert_at pos n v) ≡ suc (length v))

shifted-SearchPost :
    (n x : ℤ) (v : List ℤ) (r : Search)
    → in_i64 n ≡ true
    → IsAscending (x ∷ v)
    → ltb_ℤ x n ≡ true
    → SearchPost n v r
    → SearchPost n (x ∷ v) (shifted r)
unfolding member_of
shifted-SearchPost n x v (found pos) h s l p =
    let apart_x = signed-ne x n s.0 h l in
    let ne = flip_false (signed n) (signed x) apart_x in
    (
      rw ne (p.0),
      (s.0, p.2 x s.1, p.1),
      λ y a. (a.0, p.2 y a.1),
      λ j. rw (p.3 j) (
          except_or (signed n =ₛ j) (signed x =ₛ j) (member_of j (map signed v))
            (apart (signed n) (signed x) j apart_x)),
      ap suc p.4,
    )
shifted-SearchPost n x v (missing pos) h s l p =
    let apart_x = signed-ne x n s.0 h l in
    let ne = flip_false (signed n) (signed x) apart_x in
    (
      rw ne (p.0),
      (s.0, p.2 x s.1 l, p.1),
      λ y a k. (a.0, p.2 y a.1 k),
      λ j. rw (p.3 j) (or_swap (signed n =ₛ j) (signed x =ₛ j) (member_of j (map signed v))),
      ap suc p.4,
    )

not_less : (x n : ℤ) → eqb_ℤ x n ≡ false → ltb_ℤ n x ≡ false → ltb_ℤ x n ≡ true
not_less x n h k = ground arith

-- At an element that is found, the rest is what is left without it.
found_first :
    (x n : ℤ) (v : List ℤ)
    → eqb_ℤ x n ≡ true
    → in_i64 n ≡ true
    → IsAscending (x ∷ v)
    → SearchPost n (x ∷ v) (found 0)
unfolding member_of
found_first x n v e h s =
    let same : x ≡ n = eq_of_parts x n (ground arith) in
    let fresh = member_of-IsAbove x v s.0 s.1 s.2 in
    rw (← same) (rw (eq_refl (signed x)) refl, s.2, λ y a. a.1, λ j. without x v j fresh, refl)
  where
    without :
        (x : ℤ) (v : List ℤ) (j : Bytes)
        → member_of (signed x) (map signed v) ≡ false
        → member_of j (map signed v)
          ≡ (not (signed x =ₛ j) && ((signed x =ₛ j) || member_of j (map signed v)))
    without x v j h = elim (Bool-cases (signed x =ₛ j)) [
      | inl e ↦ rw e (sym (member_of-eq (signed x) j (map signed v) e) ∙ h)
      | inr e ↦ rw e refl
    ]

missing_first :
    (x n : ℤ) (v : List ℤ)
    → ltb_ℤ n x ≡ true
    → in_i64 n ≡ true
    → IsAscending (x ∷ v)
    → SearchPost n (x ∷ v) (missing 0)
unfolding member_of
missing_first x n v l h s =
    let above : IsAbove n (x ∷ v) = (l, IsAbove-trans n x v l s.1) in
    (member_of-IsAbove n (x ∷ v) h above s, (h, above, s), λ y a k. (k, a), λ j. refl, refl)

-- The search in an ascending vector: what a removal at the place where `n` is found leaves, and an
-- insertion at the place where it is missing.
pub binary_search-SearchPost :
    (n : ℤ) (v : List ℤ) → in_i64 n ≡ true → IsAscending v → SearchPost n v (binary_search n v)
unfolding binary_search member_of
binary_search-SearchPost n [] h s = (refl, (h, tt, tt), λ x a k. (k, tt), λ j. refl, refl)
binary_search-SearchPost n (x ∷ v) h s = elim (Bool-cases (eqb_ℤ x n)) [
  | inl e ↦ rw e (found_first x n v e h s)
  | inr e ↦ elim (Bool-cases (ltb_ℤ n x)) [
    | inl l ↦ rw (e, l) (missing_first x n v l h s)
    | inr l ↦
        rw (e, l)
          (shifted-SearchPost n x v (binary_search n v) h s (not_less x n e l)
            (binary_search-SearchPost n v h s.2))
  ]
]
