-- ===== src/Value/Collections/Hash.antt =====
-- `HashInner` of src/storage/value/collections.rs: a hash is one vector of fields and values in turn
-- until it has more than 64 fields, and goes back to that when it has at most 32. A field without a value
-- at the end of the vector, where the source would panic, is passed over.
pub mod Fields
pub mod Removal
pub mod Insertion
mod Tests
use flash_db.Base.{
  ℕ, zero, suc, ◌+◌, ◌/◌, Bool, true, false, Option, none, some, List, [], ◌∷◌, ◌++◌, map, drop,
  ◌==◌, Bytes, length, ltb, leb, ◌=ₛ◌, if◌then◌else◌,
}
use flash_db.Value.Collections.{HashInner, Pairs, compact_threshold}

unfoldable pub new : HashInner
new = HashInner.compact []

-- The `HashMap` of the full form.
unfoldable pub map_get : Bytes → Pairs → Option Bytes
map_get field [] = none
map_get field ((k, x) ∷ m) = let rest = map_get field m in if k =ₛ field then some x else rest

unfoldable pub map_insert : Bytes → Bytes → Pairs → Pairs
map_insert field value [] = (field, value) ∷ []
map_insert field value ((k, x) ∷ m) =
    let rest = map_insert field value m in if k =ₛ field then (k, value) ∷ m else (k, x) ∷ rest

unfoldable pub map_remove : Bytes → Pairs → Pairs
map_remove field [] = []
map_remove field ((k, x) ∷ m) =
    let rest = map_remove field m in if k =ₛ field then m else (k, x) ∷ rest

-- The loop of `get` over the vector.
unfoldable pub flat_get : Bytes → List Bytes → Option Bytes
flat_get field [] = none
flat_get field (k ∷ []) = none
flat_get field (k ∷ x ∷ v) = let rest = flat_get field v in if k =ₛ field then some x else rest

unfoldable pub get : HashInner → Bytes → Option Bytes
get (HashInner.compact v) field = flat_get field v
get (HashInner.full m) field = map_get field m

unfoldable pub contains_key : HashInner → Bytes → Bool
contains_key h field = elim (get h field) [ none ↦ false | some x ↦ true ]

-- The number of pairs of the vector, `v.len() / 2`.
unfoldable pub pairs_len : List Bytes → ℕ
pairs_len v = length v / 2

unfoldable pub len : HashInner → ℕ
len (HashInner.compact v) = pairs_len v
len (HashInner.full m) = length m

-- `promote_hash`, and its loop behind what is inserted so far.
unfoldable pub promote_loop : List Bytes → Pairs → Pairs
promote_loop [] m = m
promote_loop (k ∷ []) m = m
promote_loop (k ∷ x ∷ v) m = promote_loop v (map_insert k x m)

unfoldable pub promote_hash : List Bytes → HashInner
promote_hash v = HashInner.full (promote_loop v [])

unfoldable pub flat : Pairs → List Bytes
flat [] = []
flat ((k, x) ∷ m) = k ∷ x ∷ flat m

unfoldable pub demote_hash : Pairs → HashInner
demote_hash m =
    if ltb (compact_threshold / 2) (length m) then HashInner.full m else HashInner.compact (flat m)

-- The first loop of `insert_small`: the vector with the value replaced, if the field is there.
unfoldable pub flat_replace : Bytes → Bytes → List Bytes → List Bytes
flat_replace field value [] = []
flat_replace field value (k ∷ []) = k ∷ []
flat_replace field value (k ∷ x ∷ v) =
    let rest = flat_replace field value v in if k =ₛ field then k ∷ value ∷ v else k ∷ x ∷ rest

unfoldable pub pushed_hash : List Bytes → HashInner
pushed_hash v = if ltb compact_threshold (pairs_len v) then promote_hash v else HashInner.compact v

unfoldable pub insert_small : HashInner → Bytes → Bytes → HashInner × Bool
insert_small (HashInner.compact v) field value = elim (flat_get field v) [
  | some x ↦ (HashInner.compact (flat_replace field value v), false)
  | none ↦ (pushed_hash (v ++ field ∷ value ∷ []), true)
]
insert_small (HashInner.full m) field value = (
  HashInner.full (map_insert field value m),
  elim (map_get field m) [ none ↦ true | some x ↦ false ],
)

-- The last pair of a vector and what stands before it.
unfoldable pub split_last : List Bytes → Option (Bytes × Bytes × List Bytes)
split_last [] = none
split_last (k ∷ []) = none
split_last (k ∷ x ∷ v) = elim (split_last v) [
  | none ↦ some (k, x, [])
  | some (l, y, w) ↦ some (l, y, k ∷ x ∷ w)
]

-- The two swaps with the last pair and the two pops, at the pair in front of `v`.
unfoldable pub swap_pop : List Bytes → List Bytes
swap_pop v = elim (split_last v) [ none ↦ [] | some (l, y, w) ↦ l ∷ y ∷ w ]

unfoldable pub flat_remove : Bytes → List Bytes → List Bytes
flat_remove field [] = []
flat_remove field (k ∷ []) = k ∷ []
flat_remove field (k ∷ x ∷ v) =
    let rest = flat_remove field v in if k =ₛ field then swap_pop v else k ∷ x ∷ rest

-- The first pop takes the value off and drops it, so that the vector's `remove` returns the field.
unfoldable pub remove : HashInner → Bytes → HashInner × Option Bytes
remove (HashInner.compact v) field = (
  HashInner.compact (flat_remove field v),
  elim (flat_get field v) [ none ↦ none | some x ↦ some field ],
)
remove (HashInner.full m) field = (demote_hash (map_remove field m), map_get field m)

unfoldable pub is_empty : HashInner → Bool
is_empty h = len h == 0

-- `step_by(2)` from the first and from the second element.
unfoldable pub step_by_two : List Bytes → List Bytes
step_by_two [] = []
step_by_two (k ∷ []) = k ∷ []
step_by_two (k ∷ x ∷ v) = k ∷ step_by_two v

unfoldable pub keys : HashInner → List Bytes
keys (HashInner.compact v) = step_by_two v
keys (HashInner.full m) = map (λ p. p.0) m

unfoldable pub values : HashInner → List Bytes
values (HashInner.compact v) = step_by_two (drop 1 v)
values (HashInner.full m) = map (λ p. p.1) m

unfoldable pub flat_pairs : List Bytes → Pairs
flat_pairs [] = []
flat_pairs (k ∷ []) = []
flat_pairs (k ∷ x ∷ v) = (k, x) ∷ flat_pairs v

unfoldable pub iter : HashInner → Pairs
iter (HashInner.compact v) = flat_pairs v
iter (HashInner.full m) = m
