-- ===== src/Value/SortedSet.antt =====
-- `ZSetData` of src/storage/value/zset_data.rs: the entries in the order of their scores and then of their
-- members, and a Bloom filter of the members, whose words are its bits one after the other.
pub mod Order
pub mod Places
pub mod Ends
pub mod Bloom
pub mod Insertion
pub mod Removal
pub mod Ranges
pub mod Tests
use flash_db.Base.{
  ℕ, zero, suc, ◌+◌, ◌-◌, ◌*◌, ◌/◌, ◌%◌, ◌^◌, Bool, true, false, not, ◌&&◌, ◌||◌, Option, none,
  some, List, [], ◌∷◌, ◌++◌, map, reverse, Bytes, codes, length, get_elem?, take, drop, replicate,
  min, max, ltb, leb, ◌==◌, ◌=ₛ◌, if◌then◌else◌,
}
use Prim.Native.Nat.{bit_xor}
use flash_db.Value.Float.{F64, lt, eq, le, Rounding}

pub record ZEntry : Type 0 where
  pub score : F64
  pub member : Bytes

pub record ZSetData : Type 0 where
  pub entries : List ZEntry
  pub bloom : List Bool

unfoldable pub hash_loop : ℕ → Bytes → ℕ
hash_loop h [] = h
hash_loop h (b ∷ s) = hash_loop (bit_xor h b * 0x100000001b3 % 2 ^ 64) s

unfoldable pub member_hash : Bytes → ℕ
member_hash member = hash_loop 0xcbf29ce484222325 member

abbrev pub rotate_left : ℕ → ℕ → ℕ
rotate_left h k = h % 2 ^ (64 - k) * 2 ^ k + h / 2 ^ (64 - k)

-- The order of `str`: byte by byte.
unfoldable pub ltb_str : Bytes → Bytes → Bool
ltb_str [] [] = false
ltb_str [] (b ∷ t) = true
ltb_str (a ∷ s) [] = false
ltb_str (a ∷ s) (b ∷ t) = let rest = ltb_str s t in ltb a b || ((a == b) && rest)

unfoldable pub new : ZSetData
new = record { entries = []; bloom = replicate 64 false }

-- `next_power_of_two`: a word has 64 powers of two.
unfoldable pub doubled_until : ℕ → ℕ → ℕ → ℕ
doubled_until zero p n = p
doubled_until (suc fuel) p n =
    let next = doubled_until fuel (p * 2) n in if leb n p then p else next

unfoldable pub bloom_words : ℕ → ℕ
bloom_words n = max (max (doubled_until 64 1 (n * 8)) 64 / 64) 1

abbrev pub with_capacity : ℕ → ZSetData
with_capacity cap = record { entries = []; bloom = replicate (bloom_words cap * 64) false }

unfoldable pub len : ZSetData → ℕ
len z = length z.entries

-- A bit of the words, and the words with a bit set.
unfoldable pub test_bit : ℕ → List Bool → Bool
test_bit i [] = false
test_bit zero (b ∷ w) = b
test_bit (suc i) (b ∷ w) = test_bit i w

unfoldable pub set_bit : ℕ → List Bool → List Bool
set_bit i [] = []
set_bit zero (b ∷ w) = true ∷ w
set_bit (suc i) (b ∷ w) = b ∷ set_bit i w

-- The number of bits is a power of two, so that `& (bits - 1)` is the rest.
unfoldable pub bloom_maybe_contains : List Bool → ℕ → Bool
bloom_maybe_contains w h = test_bit (h % length w) w && test_bit (rotate_left h 31 % length w) w

unfoldable pub bloom_set : List Bool → ℕ → List Bool
bloom_set w h = set_bit (rotate_left h 31 % length w) (set_bit (h % length w) w)

unfoldable pub rebuild_loop : List ZEntry → List Bool → List Bool
rebuild_loop [] w = w
rebuild_loop (e ∷ v) w = rebuild_loop v (bloom_set w (member_hash e.member))

unfoldable pub bloom_rebuild : List ZEntry → List Bool
bloom_rebuild v = rebuild_loop v (replicate (bloom_words (length v) * 64) false)

unfoldable pub bloom_grow_if_needed : ZSetData → ZSetData
bloom_grow_if_needed z =
    if ltb (length z.bloom) (length z.entries * 8)
    then record z { bloom = bloom_rebuild z.entries }
    else z

-- The test of `find_insert_pos`, and of `partition_point` of the standard library, which looks for the
-- first element that fails a test that those before it pass.
unfoldable pub precedes : F64 → Bytes → F64 → Bytes → Bool
precedes s m score member = lt s score || (eq s score && ltb_str m member)

unfoldable pub partition_point : (ZEntry → Bool) → List ZEntry → ℕ
partition_point p [] = 0
partition_point p (e ∷ v) = let rest = partition_point p v in if p e then suc rest else 0

unfoldable pub find_insert_pos : List ZEntry → F64 → Bytes → ℕ
find_insert_pos v score member = partition_point (λ e. precedes e.score e.member score member) v

unfoldable pub position : Bytes → List ZEntry → Option ℕ
position m [] = none
position m (e ∷ v) =
    let rest : Option ℕ = elim (position m v) [ none ↦ none | some i ↦ some (suc i) ] in
    if e.member =ₛ m then some 0 else rest

-- `Vec::insert` and `Vec::remove`
abbrev pub insert_at : ℕ → ZEntry → List ZEntry → List ZEntry
insert_at pos e v = take pos v ++ e ∷ drop pos v

abbrev pub remove_at : ℕ → List ZEntry → List ZEntry
remove_at pos v = take pos v ++ drop (suc pos) v

-- The last entry and those before it.
unfoldable pub split_last : List ZEntry → Option (ZEntry × List ZEntry)
split_last [] = none
split_last (e ∷ v) = elim (split_last v) [ none ↦ some (e, []) | some (l, w) ↦ some (l, e ∷ w) ]

unfoldable pub place_at : List ZEntry → F64 → Bytes → List ZEntry
place_at v score member =
    insert_at (find_insert_pos v score member) (record { score = score; member = member }) v

-- `is_none_or` of the last entry: the new one goes behind it.
unfoldable pub goes_last : Option (ZEntry × List ZEntry) → F64 → Bytes → Bool
goes_last none score member = true
goes_last (some (l, w)) score member =
    lt l.score score || (eq l.score score && not (ltb_str member l.member))

unfoldable pub insert_new : ZSetData → F64 → Bytes → ZSetData
insert_new z score member =
    let entries =
      if goes_last (split_last z.entries) score member
      then z.entries ++ record { score = score; member = member } ∷ []
      else place_at z.entries score member in
    bloom_grow_if_needed
      (record { entries = entries; bloom = bloom_set z.bloom (member_hash member) })

unfoldable pub score_at : ℕ → List ZEntry → F64
score_at i [] = 0
score_at zero (e ∷ v) = e.score
score_at (suc i) (e ∷ v) = score_at i v

module _ (r : Rounding) where
  unfoldable pub insert_listed : ZSetData → F64 → Bytes → Option ℕ → ZSetData × Bool
  insert_listed z score member none = (insert_new z score member, true)
  insert_listed z score member (some pos) =
      if r.far (score_at pos z.entries) score
      then (record z { entries = place_at (remove_at pos z.entries) score member }, false)
      else (z, false)

  unfoldable pub insert_checked :
      ZSetData → F64 → Bytes → Option (ZEntry × List ZEntry) → ZSetData × Bool
  insert_checked z score member none = insert_listed z score member (position member z.entries)
  insert_checked z score member (some (l, w)) =
      if l.member =ₛ member
      then (if r.far l.score score
          then (record z { entries = place_at w score member }, false)
          else (z, false))
      else insert_listed z score member (position member z.entries)

  unfoldable pub insert : ZSetData → F64 → Bytes → ZSetData × Bool
  insert z score member =
      if bloom_maybe_contains z.bloom (member_hash member)
      then insert_checked z score member (split_last z.entries)
      else (insert_new z score member, true)

unfoldable pub remove : ZSetData → Bytes → ZSetData × Option F64
remove z member = elim (position member z.entries) [
  | none ↦ (z, none)
  | some pos ↦ (record z { entries = remove_at pos z.entries }, some (score_at pos z.entries))
]

unfoldable pub find_score : Bytes → List ZEntry → Option F64
find_score m [] = none
find_score m (e ∷ v) = let rest = find_score m v in if e.member =ₛ m then some e.score else rest

unfoldable pub get_score : ZSetData → Bytes → Option F64
get_score z member = find_score member z.entries

unfoldable pub rank : ZSetData → Bytes → Option ℕ
rank z member = position member z.entries

unfoldable pub listed : Bytes → List ZEntry → Bool
listed m [] = false
listed m (e ∷ v) = (e.member =ₛ m) || listed m v

unfoldable pub contains : ZSetData → Bytes → Bool
contains z member = listed member z.entries
