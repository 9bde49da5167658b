-- ===== src/Store/SortedSets.antt =====
-- src/storage/zset.rs: the sorted-set commands on one key. The payload of a sorted set is `ZSetData`.
pub mod Combine
pub mod Adding
pub mod Removing
pub mod Ranks
mod Tests
use flash_db.Base.{
  ℕ, zero, suc, ◌+◌, ◌-◌, ◌%◌, ◌^◌, Bool, true, false, not, ◌&&◌, ◌||◌, Option, none, some, List,
  [], ◌∷◌, ◌++◌, map, reverse, Bytes, codes, length, take, drop, replicate, min, ltb, ◌==◌, ◌=ₛ◌,
  if◌then◌else◌,
}
use flash_db.Base.Int.{ℤ, pos, negsuc}
use flash_db.Value.{zset, StoreValue, Clock, as_zset}
use flash_db.Value.Float.{F64, lt, eq, Rounding}
use flash_db.Value.SortedSet.{ZEntry, ZSetData, new, len, insert, remove, get_score, rank}
use flash_db.Value.SortedSet.Ranges.{
  rev_rank, range_by_rank, range_by_score, rev_range_by_score, count_in_score_range, pop_min,
  pop_max, lex_range, count_lex_range, incr,
}
use flash_db.Store.{Store, Result, ok, err}
use flash_db.Store.Update.{modify, upsert, on_entry, read_as}

-- `(entry.member.to_string(), entry.score)`
abbrev pub pairs : List ZEntry → List (Bytes × F64)
pairs v = map (λ e. (e.member, e.score)) v

-- The options NX, XX, GT, LT and CH of ZADD.
pub record ZAddFlags : Type 0 where
  pub nx : Bool
  pub xx : Bool
  pub gt : Bool
  pub lt_ : Bool
  pub ch : Bool

unfoldable pub should_update : ZAddFlags → F64 → F64 → Bool
should_update f score old =
    if f.gt && f.lt_
    then not (eq score old)
    else if f.gt
    then lt old score
    else if f.lt_
    then lt score old
    else true

module _ (r : Rounding) where
  -- One round of the loop: the set, and whether a member was added or changed.
  unfoldable pub zadd_known : ZAddFlags → F64 → Bytes → ZSetData → Option F64 → ZSetData × ℕ × ℕ
  zadd_known f score member z none = if f.xx then (z, 0, 0) else ((insert r z score member).0, 1, 0)
  zadd_known f score member z (some old) =
      if f.nx
      then (z, 0, 0)
      else if should_update f score old
      then ((insert r z score member).0, 0, 1)
      else (z, 0, 0)

  unfoldable pub zadd_member : ZAddFlags → F64 → Bytes → ZSetData → ZSetData × ℕ × ℕ
  zadd_member f score member z =
      if f.nx || (f.xx || (f.gt || f.lt_))
      then zadd_known f score member z (get_score z member)
      else (let (z', is_new) = insert r z score member in if is_new then (z', 1, 0) else (z', 0, 1))

  unfoldable pub zadd_loop : ZAddFlags → List (F64 × Bytes) → ZSetData → ℕ → ℕ → ZSetData × ℕ × ℕ
  zadd_loop f [] z added changed = (z, added, changed)
  zadd_loop f ((score, member) ∷ members) z added changed =
      let (z', a, c) = zadd_member f score member z in
      zadd_loop f members z' (added + a) (changed + c)

  -- The loop on a new set, which counts every pair.
  unfoldable pub fresh_loop : List (F64 × Bytes) → ZSetData → ℕ → ZSetData × ℕ
  fresh_loop [] z added = (z, added)
  fresh_loop ((score, member) ∷ members) z added =
      fresh_loop members (insert r z score member).0 (added + 1)

  unfoldable pub zadd_set : ZAddFlags → List (F64 × Bytes) → ZSetData → ZSetData × Result ℕ
  zadd_set f members z =
      let (z', added, changed) = zadd_loop f members z 0 0 in
      (z', ok (if f.ch then added + changed else added))

unfoldable pub remove_members : List Bytes → ZSetData → ℕ → ZSetData × ℕ
remove_members [] z n = (z, n)
remove_members (m ∷ members) z n =
    let (z', removed) = remove z m in
    remove_members members z' (elim removed [ none ↦ n | some score ↦ n + 1 ])

unfoldable pub zrem_set : List Bytes → ZSetData → ZSetData × Result ℕ
zrem_set members z = let (z', n) = remove_members members z 0 in (z', ok n)

unfoldable pub normalize_zset_index : ℤ → ℕ → ℕ
normalize_zset_index (negsuc n) len = len - suc n
normalize_zset_index (pos n) len = if len == 0 then 2 ^ 64 - 1 else min n (len - 1)

unfoldable pub rank_range : ℤ → ℤ → ZSetData → List (Bytes × F64)
rank_range start stop z =
    let s = normalize_zset_index start (len z) in
    let e = normalize_zset_index stop (len z) in
    if ltb e s then [] else pairs (range_by_rank z s ((e + 1) % 2 ^ 64))

unfoldable pub rev_rank_range : ℤ → ℤ → ZSetData → List (Bytes × F64)
rev_rank_range start stop z =
    let s = normalize_zset_index start (len z) in
    let e = normalize_zset_index stop (len z) in
    if ltb e s then [] else pairs (take ((e - s + 1) % 2 ^ 64) (drop s (reverse z.entries)))

-- `skip(offset).take(if count == 0 { usize::MAX } else { count })`
abbrev pub limited : ℕ → ℕ → List ZEntry → List ZEntry
limited offset count v = take (if count == 0 then 2 ^ 64 - 1 else count) (drop offset v)

unfoldable pub pop_loop :
    (ZSetData → ZSetData × Option ZEntry) → ℕ → ZSetData → List ZEntry → ZSetData × List ZEntry
pop_loop pop zero z out = (z, out)
pop_loop pop (suc n) z out =
    let (z', popped) = pop z in
    pop_loop pop n z' (elim popped [ none ↦ out | some e ↦ out ++ e ∷ [] ])

unfoldable pub popped_entries :
    (ZSetData → ZSetData × Option ZEntry) → ℕ → ZSetData → ZSetData × Result (List (Bytes × F64))
popped_entries pop count z =
    let (z', out) = pop_loop pop (min count (len z)) z [] in (z', ok (pairs out))

-- A bound of a range of members: its text and whether it is left out.
unfoldable pub parse_lex_bound : Bytes → Bytes × Bool
parse_lex_bound [] = ([], false)
parse_lex_bound (b ∷ m) =
    if b == b'(' then (m, true) else if b == b'[' then (m, false) else (b ∷ m, false)

unfoldable pub parse_lex_bound_min : Bytes → Bytes × Bool
parse_lex_bound_min s = if s =ₛ codes "-" then ([], false) else parse_lex_bound s

unfoldable pub parse_lex_bound_max : Bytes → Bytes × Bool
parse_lex_bound_max s = if s =ₛ codes "+" then (codes "+", false) else parse_lex_bound s

-- A slice of a range of scores may panic, which is `none`.
abbrev pub sliced : Result (Option (List (Bytes × F64))) → Option (Result (List (Bytes × F64)))
sliced (err e) = some (err e)
sliced (ok none) = none
sliced (ok (some v)) = some (ok v)

abbrev pub listed_pairs : ℕ → ℕ → Option (List ZEntry) → Option (List (Bytes × F64))
listed_pairs offset count none = none
listed_pairs offset count (some v) = some (pairs (limited offset count v))

module _ {S : Type 0} where
  abbrev pub fresh_zset : ZSetData → StoreValue ZSetData S
  fresh_zset z = record { value = zset z; expires_ms = 0 }

  unfoldable pub zadd_expired :
      Rounding
      → ZAddFlags
      → List (F64 × Bytes)
      → StoreValue ZSetData S
      → StoreValue ZSetData S × Result ℕ
  zadd_expired r f members v =
      let (z, added) = if f.xx then (new, 0) else fresh_loop r members new 0 in
      (fresh_zset z, ok added)

  unfoldable pub zadd_entry :
      Rounding
      → Clock
      → ZAddFlags
      → List (F64 × Bytes)
      → StoreValue ZSetData S
      → StoreValue ZSetData S × Result ℕ
  zadd_entry r c f members =
      on_entry as_zset zset c (zadd_expired r f members) (zadd_set r f members)

  unfoldable pub zadd :
      Rounding
      → Clock
      → Store ZSetData S
      → Bytes
      → ZAddFlags
      → List (F64 × Bytes)
      → Store ZSetData S × Result ℕ
  zadd r c s key f members =
      let (z, added) = fresh_loop r members new 0 in
      if f.xx
      then modify s key (zadd_entry r c f members) 0
      else upsert s key (zadd_entry r c f members) (fresh_zset z) added

  unfoldable pub zrem : Clock → Store ZSetData S → Bytes → List Bytes → Store ZSetData S × Result ℕ
  zrem c s key members =
      modify s key (on_entry as_zset zset c (λ v. (v, ok 0)) (zrem_set members)) 0

  unfoldable pub zscore : Clock → Store ZSetData S → Bytes → Bytes → Result (Option F64)
  zscore c s key member = read_as as_zset c s key none (λ z. get_score z member)

  unfoldable pub zmscore :
      Clock → Store ZSetData S → Bytes → List Bytes → Result (List (Option F64))
  zmscore c s key members =
      read_as as_zset c s key (replicate (length members) none) (λ z. map (get_score z) members)

  unfoldable pub zrank : Clock → Store ZSetData S → Bytes → Bytes → Result (Option ℕ)
  zrank c s key member = read_as as_zset c s key none (λ z. rank z member)

  unfoldable pub zrevrank : Clock → Store ZSetData S → Bytes → Bytes → Result (Option ℕ)
  zrevrank c s key member = read_as as_zset c s key none (λ z. rev_rank z member)

  unfoldable pub zcard : Clock → Store ZSetData S → Bytes → Result ℕ
  zcard c s key = read_as as_zset c s key 0 len

  unfoldable pub zcount : Clock → Store ZSetData S → Bytes → F64 → F64 → Result ℕ
  zcount c s key min_ max_ = read_as as_zset c s key 0 (λ z. count_in_score_range z min_ max_)

  unfoldable pub zincrby :
      Rounding → Clock → Store ZSetData S → Bytes → F64 → Bytes → Store ZSetData S × Result F64
  zincrby r c s key increment member =
      let z = (insert r new increment member).0 in
      upsert s key
        (on_entry as_zset zset c (λ v. (fresh_zset z, ok increment))
          (λ z. let (z', score) = incr r z member increment in (z', ok score)))
        (fresh_zset z) increment

  unfoldable pub zrange : Clock → Store ZSetData S → Bytes → ℤ → ℤ → Result (List (Bytes × F64))
  zrange c s key start stop = read_as as_zset c s key [] (rank_range start stop)

  unfoldable pub zrevrange : Clock → Store ZSetData S → Bytes → ℤ → ℤ → Result (List (Bytes × F64))
  zrevrange c s key start stop = read_as as_zset c s key [] (rev_rank_range start stop)

  unfoldable pub zrangebyscore :
      Clock → Store ZSetData S → Bytes → F64 → F64 → ℕ → ℕ → Option (Result (List (Bytes × F64)))
  zrangebyscore c s key min_ max_ offset count = sliced (
      read_as as_zset c s key (some [])
        (λ z. listed_pairs offset count (range_by_score z min_ max_)))

  unfoldable pub zrevrangebyscore :
      Clock → Store ZSetData S → Bytes → F64 → F64 → ℕ → ℕ → Option (Result (List (Bytes × F64)))
  zrevrangebyscore c s key max_ min_ offset count = sliced (
      read_as as_zset c s key (some [])
        (λ z. listed_pairs offset count (rev_range_by_score z min_ max_)))

  unfoldable pub zpopmin :
      Clock → Store ZSetData S → Bytes → ℕ → Store ZSetData S × Result (List (Bytes × F64))
  zpopmin c s key count =
      modify s key (on_entry as_zset zset c (λ v. (v, ok [])) (popped_entries pop_min count)) []

  unfoldable pub zpopmax :
      Clock → Store ZSetData S → Bytes → ℕ → Store ZSetData S × Result (List (Bytes × F64))
  zpopmax c s key count =
      modify s key (on_entry as_zset zset c (λ v. (v, ok [])) (popped_entries pop_max count)) []

  unfoldable pub zlexcount : Clock → Store ZSetData S → Bytes → Bytes → Bytes → Result ℕ
  zlexcount c s key min_ max_ =
      let (low, low_exc) = parse_lex_bound_min min_ in
      let (high, high_exc) = parse_lex_bound_max max_ in
      read_as as_zset c s key 0 (λ z. count_lex_range z low high low_exc high_exc)

  unfoldable pub zrangebylex :
      Clock → Store ZSetData S → Bytes → Bytes → Bytes → ℕ → ℕ → Result (List Bytes)
  zrangebylex c s key min_ max_ offset count =
      let (low, low_exc) = parse_lex_bound_min min_ in
      let (high, high_exc) = parse_lex_bound_max max_ in
      read_as as_zset c s key []
        (λ z. map (λ e. e.member) (limited offset count (lex_range z low high low_exc high_exc)))
