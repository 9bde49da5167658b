-- ===== src/Value/SortedSet/Ranges.antt =====
-- The methods of src/storage/value/zset_data.rs on ranks, on ranges of scores and of members, and on the ends.
pub mod Scores
pub mod Reversed
use flash_db.Base.{
  ℕ, zero, suc, ◌+◌, ◌-◌, ◌%◌, ◌^◌, Bool, true, false, not, ◌&&◌, ◌||◌, Option, none, some, List,
  [], ◌∷◌, ◌++◌, map, reverse, Bytes, codes, length, get_elem?, take, drop, min, ltb, leb, ◌==◌,
  ◌=ₛ◌, if◌then◌else◌,
}
use flash_db.Value.Float.{F64, lt, eq, le, Rounding}
use flash_db.Value.SortedSet.{
  ZEntry, ZSetData, ltb_str, partition_point, position, remove_at, place_at, split_last, score_at,
  rank, len, insert, bloom_rebuild,
}

unfoldable pub rev_rank : ZSetData → Bytes → Option ℕ
rev_rank z member = elim (rank z member) [ none ↦ none | some i ↦ some (length z.entries - 1 - i) ]

-- `&v[start..end]`, which panics if the bounds are in the wrong order or beyond the end.
unfoldable pub slice : ℕ → ℕ → List ZEntry → Option (List ZEntry)
slice start end v =
    if ltb end start || ltb (length v) end then none else some (take (end - start) (drop start v))

unfoldable pub range_by_rank : ZSetData → ℕ → ℕ → List ZEntry
range_by_rank z start end =
    let e = min end (length z.entries) in
    if leb e start then [] else take (e - start) (drop start z.entries)

-- Where the scores from `min_` on start, and where those to `max_` end.
unfoldable pub score_start : F64 → List ZEntry → ℕ
score_start min_ v = partition_point (λ e. lt e.score min_) v

unfoldable pub score_end : F64 → List ZEntry → ℕ
score_end max_ v = partition_point (λ e. le e.score max_) v

unfoldable pub range_by_score : ZSetData → F64 → F64 → Option (List ZEntry)
range_by_score z min_ max_ = slice (score_start min_ z.entries) (score_end max_ z.entries) z.entries

unfoldable pub rev_range_by_score : ZSetData → F64 → F64 → Option (List ZEntry)
rev_range_by_score z min_ max_ = elim (range_by_score z min_ max_) [
  | none ↦ none
  | some v ↦ some (reverse v)
]

-- `end - start`, which wraps around.
unfoldable pub count_in_score_range : ZSetData → F64 → F64 → ℕ
count_in_score_range z min_ max_ =
    (score_end max_ z.entries + 2 ^ 64 - score_start min_ z.entries) % 2 ^ 64

unfoldable pub pop_min : ZSetData → ZSetData × Option ZEntry
pop_min z = elim z.entries [ [] ↦ (z, none) | e ∷ v ↦ (record z { entries = v }, some e) ]

unfoldable pub pop_max : ZSetData → ZSetData × Option ZEntry
pop_max z = elim (split_last z.entries) [
  | none ↦ (z, none)
  | some (l, w) ↦ (record z { entries = w }, some l)
]

unfoldable pub above_min : Bytes → Bool → Bytes → Bool
above_min min_ exclusive m = if exclusive then ltb_str min_ m else not (ltb_str m min_)

unfoldable pub below_max : Bytes → Bool → Bytes → Bool
below_max max_ exclusive m =
    if max_ =ₛ codes "+" then true else if exclusive then ltb_str m max_ else not (ltb_str max_ m)

-- `filter` of an iterator, and `retain`.
unfoldable pub filtered : (ZEntry → Bool) → List ZEntry → List ZEntry
filtered p [] = []
filtered p (e ∷ v) = let rest = filtered p v in if p e then e ∷ rest else rest

abbrev pub in_lex : Bytes → Bytes → Bool → Bool → ZEntry → Bool
in_lex min_ max_ min_exclusive max_exclusive e =
    above_min min_ min_exclusive e.member && below_max max_ max_exclusive e.member

unfoldable pub lex_range : ZSetData → Bytes → Bytes → Bool → Bool → List ZEntry
lex_range z min_ max_ min_exclusive max_exclusive =
    filtered (in_lex min_ max_ min_exclusive max_exclusive) z.entries

unfoldable pub count_lex_range : ZSetData → Bytes → Bytes → Bool → Bool → ℕ
count_lex_range z min_ max_ min_exclusive max_exclusive =
    length (lex_range z min_ max_ min_exclusive max_exclusive)

-- `drain(start..end)`
abbrev pub drained : ℕ → ℕ → List ZEntry → List ZEntry
drained start end v = take start v ++ drop end v

unfoldable pub remove_range_by_rank : ZSetData → ℕ → ℕ → ZSetData × ℕ
remove_range_by_rank z start end =
    let e = min end (length z.entries) in
    if leb e start then (z, 0) else (record z { entries = drained start e z.entries }, e - start)

unfoldable pub remove_range_by_score : ZSetData → F64 → F64 → ZSetData × ℕ
remove_range_by_score z min_ max_ =
    let start = score_start min_ z.entries in
    let end = score_end max_ z.entries in
    if leb end start
    then (z, 0)
    else (record z { entries = drained start end z.entries }, end - start)

unfoldable pub remove_lex_range : ZSetData → Bytes → Bytes → Bool → Bool → ZSetData × ℕ
remove_lex_range z min_ max_ min_exclusive max_exclusive =
    let left = filtered (λ e. not (in_lex min_ max_ min_exclusive max_exclusive e)) z.entries in
    (record z { entries = left }, length z.entries - length left)

-- Whether the neighbours of a place leave a score there; a place without the neighbour does.
unfoldable pub stays_behind : List ZEntry → ℕ → F64 → Bytes → Bool
stays_behind v pos score member = (pos == 0) || elim (get_elem? v (pos - 1)) [
  | none ↦ true
  | some p ↦ lt p.score score || (eq p.score score && not (ltb_str member p.member))
]

unfoldable pub stays_before : List ZEntry → ℕ → F64 → Bytes → Bool
stays_before v pos score member = leb (length v - 1) pos || elim (get_elem? v (pos + 1)) [
  | none ↦ true
  | some n ↦ lt score n.score || (eq n.score score && not (ltb_str n.member member))
]

unfoldable pub rescored : ℕ → F64 → List ZEntry → List ZEntry
rescored pos score [] = []
rescored zero score (e ∷ v) = record e { score = score } ∷ v
rescored (suc pos) score (e ∷ v) = e ∷ rescored pos score v

unfoldable pub incr : Rounding → ZSetData → Bytes → F64 → ZSetData × F64
incr r z member increment = elim (position member z.entries) [
  | none ↦ ((insert r z increment member).0, increment)
  | some pos ↦
      let score = r.add (score_at pos z.entries) increment in
      (
        record z {
          entries =
              if stays_behind z.entries pos score member && stays_before z.entries pos score member
              then rescored pos score z.entries
              else place_at (remove_at pos z.entries) score member;
        },
        score,
      )
]

unfoldable pub shrink_to_fit : ZSetData → ZSetData
shrink_to_fit z = record z { bloom = bloom_rebuild z.entries }
