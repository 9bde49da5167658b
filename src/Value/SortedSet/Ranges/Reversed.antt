-- ===== src/Value/SortedSet/Ranges/Reversed.antt =====
-- Ranges of scores whose bounds are the wrong way round.
use mathlib.Core.Path.{subst}
use flash_db.Base.{
  ◌^◌, ◌≤◌, ◌<◌, ◌≡◌, refl, inl, inr, Bool, true, false, not, ◌&&◌, none, List, [], ◌∷◌, ◌++◌,
  length, Bool-cases, arith,
}
use flash_db.Base.Int.{ℤ, ltb_ℤ}
use flash_db.Value.Float.{F64, is_nan, key, lt, le}
use flash_db.Value.SortedSet.{ZEntry, ZSetData, partition_point}
use flash_db.Value.SortedSet.Places.{before, IsBelow, IsOrdered}
use flash_db.Value.SortedSet.Ranges.{
  slice, score_start, score_end, range_by_score, count_in_score_range,
}
use flash_db.Value.SortedSet.Ranges.Scores.{before-le, le-lt}

lt_irrefl : (a : F64) → lt a a ≡ false
unfolding lt
lt_irrefl a = nowhere (is_nan a) (ltb_ℤ (key a) (key a)) (same (key a))
  where
    same : (k : ℤ) → ltb_ℤ k k ≡ false
    same k = ground arith

    nowhere : (n k : Bool) → k ≡ false → (not n && (not n && k)) ≡ false
    nowhere true k h = refl
    nowhere false k h = h

lt_excludes : (a b : F64) → lt a b ≡ true → le b a ≡ false
lt_excludes a b h = elim (Bool-cases (le b a)) [
  | inl k ↦ absurd (clash (le-lt b a b k h) (lt_irrefl b))
  | inr k ↦ k
]
  where
    clash : {x : Bool} → x ≡ true → x ≡ false → ⊥
    clash h k = cc

split_below : (y e : ZEntry) (u w : List ZEntry) → IsBelow y (u ++ e ∷ w) → before y e ≡ true
split_below y e [] w b = b.0
split_below y e (x ∷ u) w b = split_below y e u w b.1

module _ (a b : F64) (e : ZEntry) (w : List ZEntry) where
  score_end-le : (u : List ZEntry) → le e.score b ≡ false → score_end b (u ++ e ∷ w) ≤ length u
  unfolding score_end partition_point
  score_end-le [] h = rw h (omega arith)
  score_end-le (y ∷ u) h =
      let l = score_end-le u h in
      elim (Bool-cases (le y.score b)) [
        | inl k ↦ rw k (omega (arith, l))
        | inr k ↦ rw k (omega arith)
      ]

  partition_point-le : (v : List ZEntry) → partition_point (λ x. lt x.score a) v ≤ length v
  unfolding partition_point
  partition_point-le [] = omega arith
  partition_point-le (y ∷ v) =
      let l = partition_point-le v in
      elim (Bool-cases (lt y.score a)) [
        | inl k ↦ rw k (omega (arith, l))
        | inr k ↦ rw k (omega arith)
      ]

  score_start-lt :
      (u : List ZEntry)
      → IsOrdered (u ++ e ∷ w)
      → lt e.score a ≡ true
      → (length u < score_start a (u ++ e ∷ w)) × (score_start a (u ++ e ∷ w) ≤ length (u ++ e ∷ w))
  unfolding score_start partition_point
  score_start-lt [] o h = rw h (omega arith, omega (arith, partition_point-le w))
  score_start-lt (y ∷ u) o h =
      let l = score_start-lt u o.3 h in
      rw (le-lt y.score e.score a (before-le y e (split_below y e u w o.2)) h)
        (omega (arith, l.0), omega (arith, l.1))

-- On a sorted set in order of fewer than 2 ^ 63 entries, with an entry whose score is above the
-- upper bound and below the lower one: the slice of ZRANGEBYSCORE has its bounds in the wrong order
-- and panics, and the count of ZCOUNT wraps around to 2 ^ 63 or more.
pub reversed_lem :
    (z : ZSetData) (a b : F64) (u w : List ZEntry) (e : ZEntry)
    → z.entries ≡ u ++ e ∷ w
    → IsOrdered z.entries
    → length z.entries < 2 ^ 63
    → lt b e.score ≡ true
    → lt e.score a ≡ true
    → (range_by_score z a b ≡ none) × (2 ^ 63 ≤ count_in_score_range z a b)
unfolding range_by_score count_in_score_range slice
reversed_lem z a b u w e p o n h k =
    let s = score_start-lt a b e w u (subst IsOrdered p o) k in
    let t = score_end-le a b e w u (lt_excludes b e.score h) in
    let x = rw (← p) at s in
    let y = rw (← p) at t in (ground (arith, x.0, y), omega (arith, x, y, n))
