-- ===== src/Value/Collections/Set/Removal.antt =====
-- `remove` of a set, in each of its three forms and across the changes of form.
use flash_db.Base.{
  ℕ, ◌+◌, ◌/◌, ◌≡◌, refl, sym, ap, ◌∙◌, inl, inr, Bool, true, false, not, ◌&&◌, Option, none, some,
  List, map, Bytes, length, ltb, ◌=ₛ◌, if◌then◌else◌, Bool-cases, arith,
}
use flash_db.Base.Int.{ℤ}
use flash_db.Resp.Replies.{signed}
use flash_db.Value.Collections.{SetInner, compact_threshold}
use flash_db.Value.Collections.Set.{
  Search, found, missing, binary_search, canonical_i64, member_of, iter, len, remove,
  remove_integer, demote_set, set_remove, position, swap_remove, remove_at,
}
use flash_db.Value.Collections.Set.Members.{IsDistinct, canonical_i64_sound, member_of-eq}
use flash_db.Value.Collections.Set.Integers.{IsAscending, SearchPost, binary_search-SearchPost}
use flash_db.Value.Collections.Set.Strings.{
  PositionPost, position-PositionPost, set_remove-Lost, set_remove_absent,
}
use flash_db.Value.Collections.Set.Laws.{IsSetInner, no_integer}

-- What `remove` of `m` makes of a set, and returns.
pub record Removed (m : Bytes) (s : SetInner) (done : SetInner × Bool) : Type 0 where
  pub whole : IsSetInner done.0
  pub members : (j : Bytes) → member_of j (iter done.0) ≡ (not (m =ₛ j) && member_of j (iter s))
  pub was_there : done.1 ≡ member_of m (iter s)
  pub counts : len s ≡ len done.0 + (if done.1 then 1 else 0)

-- Nothing is lost where `m` is no member.
absent_lem :
    (m j : Bytes) (v : List Bytes)
    → member_of m v ≡ false
    → member_of j v ≡ (not (m =ₛ j) && member_of j v)
absent_lem m j v e = elim (Bool-cases (m =ₛ j)) [
  | inl k ↦ rw k (sym (member_of-eq m j v k) ∙ e)
  | inr k ↦ rw k refl
]

remove_integer-Removed :
    (m : Bytes) (v : List ℤ) (o : Option ℤ)
    → IsAscending v
    → canonical_i64 m ≡ o
    → Removed m (SetInner.integers v) (remove_integer v o)
unfolding remove_integer iter len member_of
remove_integer-Removed m v none w e = record {
  whole = w;
  members = λ j. absent_lem m j (map signed v) (no_integer m v e w);
  was_there = sym (no_integer m v e w);
  counts = omega arith;
}
remove_integer-Removed m v (some n) w e =
    let c = canonical_i64_sound m n e in
    taken (binary_search n v) (binary_search-SearchPost n v c.1 w) c.0
  where
    taken :
        (r : Search)
        → SearchPost n v r
        → signed n ≡ m
        → Removed m (SetInner.integers v) (elim r [
          | found pos ↦ (SetInner.integers (remove_at pos v), true)
          | missing pos ↦ (SetInner.integers v, false)
        ])
    taken (found pos) p q =
        rw (← q) (record {
          whole = p.1;
          members = p.3;
          was_there = sym (p.0);
          counts = omega (arith, p.4);
        })
    taken (missing pos) p q = rw (← q) (record {
      whole = w;
      members = λ j. absent_lem (signed n) j (map signed v) (p.0);
      was_there = sym (p.0);
      counts = omega arith;
    })

demoted :
    (s : List Bytes)
    → (iter (demote_set s) ≡ s)
      × (len (demote_set s) ≡ length s)
      × (IsDistinct s → IsSetInner (demote_set s))
unfolding iter len demote_set
demoted s = elim (Bool-cases (ltb (compact_threshold / 2) (length s))) [
  | inl e ↦ rw e (refl, refl, λ d. d)
  | inr e ↦ rw e (refl, refl, λ d. d)
]

-- A `HashSet` without `m`, in the form that it has then.
full-Removed :
    (m : Bytes) (s : List Bytes)
    → IsDistinct s
    → Removed m (SetInner.full s) (demote_set (set_remove m s), member_of m s)
unfolding iter len
full-Removed m s w = elim (Bool-cases (member_of m s)) [
  | inl e ↦
      let l = set_remove-Lost m s w e in
      let d = demoted (set_remove m s) in
      record {
        whole = d.2 l.once;
        members = λ j. ap (member_of j) d.0 ∙ l.keeps j;
        was_there = refl;
        counts = rw e (omega (arith, d.1, l.shorter));
      }
  | inr e ↦
      let a = set_remove_absent m s e in
      let d = demoted (set_remove m s) in
      record {
        whole = d.2 (rw a w);
        members = λ j. ap (member_of j) (d.0 ∙ a) ∙ absent_lem m j s e;
        was_there = refl;
        counts = rw e (omega (arith, d.1, ap length a));
      }
]

-- `remove` of a set in any form takes the member away and no other, keeps the form whole, and says
-- whether it was there.
pub remove-Removed : (s : SetInner) (m : Bytes) → IsSetInner s → Removed m s (remove s m)
unfolding remove iter len member_of
remove-Removed (SetInner.integers v) m w = remove_integer-Removed m v (canonical_i64 m) w refl
remove-Removed (SetInner.compact v) m w = at_position (position m v) (position-PositionPost m v)
  where
    at_position :
        (o : Option ℕ)
        → PositionPost m v o
        → Removed m (SetInner.compact v) (elim o [
          | some pos ↦ (SetInner.compact (swap_remove pos v), true)
          | none ↦ (SetInner.compact v, false)
        ])
    at_position none p = record {
      whole = w;
      members = λ j. absent_lem m j v p;
      was_there = sym p;
      counts = omega arith;
    }
    at_position (some i) p =
        let l = p.1 w in
        record {
          whole = l.once;
          members = l.keeps;
          was_there = sym (p.0);
          counts = omega (arith, l.shorter);
        }
remove-Removed (SetInner.full v) m w = full-Removed m v w
