-- ===== src/Store/SortedSets/Ranks.antt =====
-- ZRANGE with ranks behind the last one.
use flash_db.Base.{
  ℕ, suc, ◌+◌, ◌-◌, ◌%◌, ◌^◌, ◌≤◌, ◌<◌, ◌≡◌, refl, ap, ◌∙◌, false, List, [], ◌∷◌, ◌++◌, length,
  drop, length-append, drop-append, min, leb, ltb, arith,
}
use flash_db.Base.Int.{pos}
use flash_db.Value.SortedSet.{ZEntry, ZSetData, len}
use flash_db.Value.SortedSet.Ranges.{range_by_rank}
use flash_db.Store.SortedSets.{pairs, normalize_zset_index, rank_range}

normalize-beyond : (n l : ℕ) → suc l ≤ n → normalize_zset_index (pos n) (suc l) ≡ l
unfolding normalize_zset_index
normalize-beyond n l h = ground arith

last_range :
    (z : ZSetData) (u : List ZEntry) (e : ZEntry)
    → z.entries ≡ u ++ e ∷ []
    → range_by_rank z (length u) (length u + 1) ≡ e ∷ []
unfolding range_by_rank
last_range z u e p =
    let l : length z.entries ≡ length u + 1 = ap length p ∙ length-append u (e ∷ []) in
    let end : min (length u + 1) (length z.entries) ≡ length u + 1 = omega (arith, l) in
    let d : drop (length u) z.entries ≡ e ∷ [] = ap (drop (length u)) p ∙ drop-append u (e ∷ []) in
    rw (end, d, behind (length u), sub_one (length u)) refl
  where
    behind : (n : ℕ) → leb (n + 1) n ≡ false
    behind n = ground arith

    sub_one : (n : ℕ) → n + 1 - n ≡ 1
    sub_one n = omega arith

-- ZRANGE on a sorted set that has an entry and fewer than 2 ^ 64 of them, with a start and a stop
-- behind the last rank, answers the last entry.
pub rank_range_beyond :
    (z : ZSetData) (u : List ZEntry) (e : ZEntry) (n m : ℕ)
    → z.entries ≡ u ++ e ∷ []
    → length z.entries < 2 ^ 64
    → length z.entries ≤ n
    → length z.entries ≤ m
    → rank_range (pos n) (pos m) z ≡ pairs (e ∷ [])
unfolding rank_range len
rank_range_beyond z u e n m p b h k =
    let l : length z.entries ≡ suc (length u) =
      ap length p ∙ omega (arith, length-append u (e ∷ [])) in
    let s =
      ap (normalize_zset_index (pos n)) l ∙ normalize-beyond n (length u) (omega (arith, l, h)) in
    let t =
      ap (normalize_zset_index (pos m)) l ∙ normalize-beyond m (length u) (omega (arith, l, k)) in
    let w : (length u + 1) % 2 ^ 64 ≡ length u + 1 = omega (arith, l, b) in
    rw (s, t, level (length u), w) (ap pairs (last_range z u e p))
  where
    level : (i : ℕ) → ltb i i ≡ false
    level i = ground arith
