-- ===== src/Value/Collections/Set/Insertion.antt =====
-- `insert` of a set, in each of its three forms and across the changes of form.
use flash_db.Base.{
  ◌+◌, ◌≡◌, refl, inl, inr, Bool, true, false, ◌||◌, Option, none, some, List, [], ◌∷◌, ◌++◌, map,
  Bytes, length, length-append, ltb, ◌=ₛ◌, if◌then◌else◌, Bool-cases, arith,
}
use flash_db.Base.Int.{ℤ}
use flash_db.Resp.Replies.{signed}
use flash_db.Value.Collections.{SetInner, compact_threshold}
use flash_db.Value.Collections.Set.{
  Search, found, missing, binary_search, canonical_i64, member_of, iter, len, insert,
  insert_integer, pushed_set, promote_set, set_insert, insert_at,
}
use flash_db.Value.Collections.Set.Members.{
  IsDistinct, IsDistinct-append, canonical_i64_sound, member_of-append, member_of-or,
}
use flash_db.Value.Collections.Set.Integers.{IsAscending, SearchPost, binary_search-SearchPost}
use flash_db.Value.Collections.Set.Strings.{set_insert_lem, promote_loop_lem, length-promote_loop}
use flash_db.Value.Collections.Set.Laws.{
  IsSetInner, Inserted, map-IsDistinct, length-map, no_integer,
}

or_comm : (a b : Bool) → (a || (b || false)) ≡ (b || a)
or_comm true true = refl
or_comm true false = refl
or_comm false true = refl
or_comm false false = refl

-- A string that is not there, at the end of the vector.
pushed-Inserted :
    (m : Bytes) (v : List Bytes)
    → IsDistinct v
    → member_of m v ≡ false
    → Inserted m (SetInner.compact v) (pushed_set (v ++ m ∷ []), true)
unfolding pushed_set promote_set iter len member_of
pushed-Inserted m v d e = elim (Bool-cases (ltb compact_threshold (length (v ++ m ∷ [])))) [
  | inl k ↦
      let p = promote_loop_lem (v ++ m ∷ []) [] tt in
      rw k (record {
        whole = p.0;
        members = λ j. rw (p.1 j, member_of-append j v (m ∷ [])) (ground arith);
        is_new = rw e refl;
        counts =
            rw (length-promote_loop (v ++ m ∷ []) [] (IsDistinct-append m v d e) (λ j h. refl))
              (omega (arith, length-append v (m ∷ [])));
      })
  | inr k ↦ rw k (record {
    whole = IsDistinct-append m v d e;
    members = λ j. rw (member_of-append j v (m ∷ [])) (or_comm (member_of j v) (m =ₛ j));
    is_new = rw e refl;
    counts = omega (arith, length-append v (m ∷ []));
  })
]

insert_integer-Inserted :
    (m : Bytes) (v : List ℤ) (o : Option ℤ)
    → IsAscending v
    → canonical_i64 m ≡ o
    → Inserted m (SetInner.integers v) (insert_integer v m o)
unfolding insert_integer iter len member_of
insert_integer-Inserted m v none w e = record {
  whole = IsDistinct-append m (map signed v) (map-IsDistinct v w) (no_integer m v e w);
  members = λ j.
      rw (member_of-append j (map signed v) (m ∷ []))
        (or_comm (member_of j (map signed v)) (m =ₛ j));
  is_new = rw (no_integer m v e w) refl;
  counts = omega (arith, length-append (map signed v) (m ∷ []), length-map v);
}
insert_integer-Inserted m v (some n) w e =
    let c = canonical_i64_sound m n e in
    placed (binary_search n v) (binary_search-SearchPost n v c.1 w) c.0
  where
    placed :
        (r : Search)
        → SearchPost n v r
        → signed n ≡ m
        → Inserted m (SetInner.integers v) (elim r [
          | found pos ↦ (SetInner.integers v, false)
          | missing pos ↦ (SetInner.integers (insert_at pos n v), true)
        ])
    placed (found pos) p q = rw (← q) (record {
      whole = w;
      members = λ j. member_of-or (signed n) j (map signed v) (p.0);
      is_new = rw (p.0) refl;
      counts = omega arith;
    })
    placed (missing pos) p q =
        rw (← q) (record {
          whole = p.1;
          members = p.3;
          is_new = rw (p.0) refl;
          counts = omega (arith, p.4);
        })

length-set_insert :
    (m : Bytes) (s : List Bytes)
    → length (set_insert m s)
      ≡ length s + (if (if member_of m s then false else true) then 1 else 0)
unfolding set_insert
length-set_insert m s = ground (arith, length-append s (m ∷ []))

-- `insert` of a set in any form, integers, strings or `HashSet`, adds the member and no other,
-- across the change of form; the integers stay ascending and no string is there twice; the length
-- grows by one exactly if the member is new, which is what it returns.
pub insert-Inserted : (s : SetInner) (m : Bytes) → IsSetInner s → Inserted m s (insert s m)
unfolding insert iter len member_of
insert-Inserted (SetInner.integers v) m w = insert_integer-Inserted m v (canonical_i64 m) w refl
insert-Inserted (SetInner.compact v) m w = elim (Bool-cases (member_of m v)) [
  | inl e ↦ rw e (record {
    whole = w;
    members = λ j. member_of-or m j v e;
    is_new = rw e refl;
    counts = omega arith;
  })
  | inr e ↦ rw e (pushed-Inserted m v w e)
]
insert-Inserted (SetInner.full v) m w =
    let i = set_insert_lem m v w in
    record { whole = i.0; members = i.1; is_new = ground arith; counts = length-set_insert m v }
