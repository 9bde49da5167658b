-- ===== src/Value/Collections/Set/Laws.antt =====
-- A set as its members, in each of its three forms and across the changes of form.
use flash_db.Base.{
  suc, ◌+◌, ◌≡◌, refl, sym, ap, ◌∙◌, inl, inr, Bool, true, false, not, ◌||◌, Option, none, some,
  List, [], ◌∷◌, map, Bytes, length, ◌=ₛ◌, eq_iff, if◌then◌else◌, Bool-cases,
}
use flash_db.Base.Int.{ℤ}
use flash_db.Resp.Replies.{signed}
use flash_db.Value.Collections.{SetInner}
use flash_db.Value.Collections.Set.{
  Search, found, missing, binary_search, canonical_i64, member_of, iter, len, contains,
}
use flash_db.Value.Collections.Set.Members.{IsDistinct, canonical_i64-signed, canonical_i64_sound}
use flash_db.Value.Collections.Set.Integers.{
  IsAscending, SearchPost, binary_search-SearchPost, member_of-IsAbove,
}

-- The integers ascend, and no string is there twice.
abbrev pub IsSetInner : SetInner → Type 0
IsSetInner (SetInner.integers v) = IsAscending v
IsSetInner (SetInner.compact v) = IsDistinct v
IsSetInner (SetInner.full s) = IsDistinct s

-- The texts of ascending integers are distinct.
pub map-IsDistinct : (v : List ℤ) → IsAscending v → IsDistinct (map signed v)
map-IsDistinct [] s = tt
map-IsDistinct (x ∷ v) s = (member_of-IsAbove x v s.0 s.1 s.2, map-IsDistinct v s.2)

pub length-map : (v : List ℤ) → length (map signed v) ≡ length v
length-map [] = refl
length-map (x ∷ v) = ap suc (length-map v)

pub iter-IsDistinct : (s : SetInner) → IsSetInner s → IsDistinct (iter s)
unfolding iter
iter-IsDistinct (SetInner.integers v) w = map-IsDistinct v w
iter-IsDistinct (SetInner.compact v) w = w
iter-IsDistinct (SetInner.full v) w = w

pub len-iter : (s : SetInner) → len s ≡ length (iter s)
unfolding len iter
len-iter (SetInner.integers v) = sym (length-map v)
len-iter (SetInner.compact v) = refl
len-iter (SetInner.full v) = refl

-- A text that stands for no integer is not among the integers' texts.
pub no_integer :
    (m : Bytes) (v : List ℤ)
    → canonical_i64 m ≡ none
    → IsAscending v
    → member_of m (map signed v) ≡ false
unfolding member_of
no_integer m [] e s = refl
no_integer m (x ∷ v) e s = elim (Bool-cases (signed x =ₛ m)) [
  | inl k ↦
      absurd (clash (canonical_i64-signed x s.0) (ap canonical_i64 ((eq_iff (signed x) m).0 k)) e)
  | inr k ↦ rw k (no_integer m v e s.2)
]
  where
    clash : {x : ℤ} {a b : Option ℤ} → a ≡ some x → a ≡ b → b ≡ none → ⊥
    clash h k l = cc

-- `contains` finds exactly the members.
pub contains-iter : (s : SetInner) (m : Bytes) → IsSetInner s → contains s m ≡ member_of m (iter s)
unfolding contains iter
contains-iter (SetInner.compact v) m w = refl
contains-iter (SetInner.full v) m w = refl
contains-iter (SetInner.integers v) m w = searched (canonical_i64 m) refl
  where
    at_search :
        (n : ℤ) (r : Search)
        → SearchPost n v r
        → (elim r as (λ r. Bool) [ found pos ↦ true | missing pos ↦ false ])
          ≡ member_of (signed n) (map signed v)
    at_search n (found pos) p = sym p.0
    at_search n (missing pos) p = sym p.0

    searched :
        (o : Option ℤ)
        → canonical_i64 m ≡ o
        → (elim o as (λ o. Bool) [
          | none ↦ false
          | some n ↦ elim (binary_search n v) as (λ r. Bool) [
            | found pos ↦ true
            | missing pos ↦ false
          ]
        ])
          ≡ member_of m (map signed v)
    searched none e = sym (no_integer m v e w)
    searched (some n) e =
        let c = canonical_i64_sound m n e in
        at_search n (binary_search n v) (binary_search-SearchPost n v c.1 w)
        ∙ ap (λ t. member_of t (map signed v)) c.0

-- What `insert` of `m` makes of a set, and returns.
pub record Inserted (m : Bytes) (s : SetInner) (done : SetInner × Bool) : Type 0 where
  pub whole : IsSetInner done.0
  pub members : (j : Bytes) → member_of j (iter done.0) ≡ ((m =ₛ j) || member_of j (iter s))
  pub is_new : done.1 ≡ not (member_of m (iter s))
  pub counts : len done.0 ≡ len s + (if done.1 then 1 else 0)
