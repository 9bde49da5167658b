-- ===== src/Value/SortedSet/Removal.antt =====
-- What `remove` does to a sorted set in order.
use flash_db.Base.{
  ℕ, ◌≡◌, refl, sym, ap, ◌∙◌, inl, inr, Option, none, some, Bytes, length, arith, ◌+◌, ◌=ₛ◌, eq_iff,
  if◌then◌else◌, Bool-cases,
}
use flash_db.Value.Float.{F64}
use flash_db.Value.SortedSet.{
  ZSetData, position, remove_at, score_at, len, find_score, get_score, remove,
}
use flash_db.Value.SortedSet.Places.{PositionPost, position-PositionPost}
use flash_db.Value.SortedSet.Bloom.{Covers-remove_at}
use flash_db.Value.SortedSet.Insertion.{IsZSet}

-- `remove` from a sorted set in order, whose filter has no false negative, keeps it so, takes away
-- the member and no other, and returns the score that it had; the length shrinks by one exactly if
-- it had one.
pub remove_in_order :
    (z : ZSetData) (m j : Bytes)
    → IsZSet z
    → let done = remove z m in
      IsZSet done.0
      × (get_score done.0 j ≡ (if m =ₛ j then none else get_score z j))
      × (done.1 ≡ get_score z m)
      × (len z ≡ len done.0 + (elim done.1 [ none ↦ 0 | some score ↦ 1 ]))
unfolding remove get_score len
remove_in_order z m j w = at_position (position m z.entries) (position-PositionPost m z.entries)
  where
    at_position :
        (o : Option ℕ)
        → PositionPost m z.entries o
        → let done : ZSetData × Option F64 = elim o [
          | none ↦ (z, none)
          | some pos ↦
              (record z { entries = remove_at pos z.entries }, some (score_at pos z.entries))
        ] in
          IsZSet done.0
          × (find_score j done.0.entries ≡ (if m =ₛ j then none else find_score j z.entries))
          × (done.1 ≡ find_score m z.entries)
          × (length z.entries ≡ length done.0.entries + (elim done.1 [ none ↦ 0 | some score ↦ 1 ]))
    at_position none p = (
      w,
      elim (Bool-cases (m =ₛ j)) [
        | inl q ↦ rw q (ap (λ i. find_score i z.entries) (sym ((eq_iff m j).0 q)) ∙ p.1)
        | inr q ↦ rw q refl
      ],
      sym (p.1),
      omega arith,
    )
    at_position (some i) p =
        let t = p.2 w.0 in
        (
          (t.ordered, w.1, Covers-remove_at z.bloom i z.entries w.2),
          t.scores j,
          sym (p.1),
          omega (arith, t.shorter),
        )
