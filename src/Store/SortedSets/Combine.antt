-- ===== src/Store/SortedSets/Combine.antt =====
-- src/storage/zset.rs: the commands that combine the sorted sets of several keys.
use flash_db.Base.{ℕ, none, some, List, [], ◌∷◌, Bytes, if◌then◌else◌}
use flash_db.Map.{get_ref}
use flash_db.Value.{Clock, is_expired, as_zset}
use flash_db.Value.Float.{F64, Rounding}
use flash_db.Value.SortedSet.{ZEntry, ZSetData, new, len, insert, remove, get_score, contains}
use flash_db.Store.{Store, Result, ok, err, wrong_type}
use flash_db.Store.Update.{map_ok, put}
use flash_db.Store.SortedSets.{pairs, fresh_zset}

pub data ZAggregate : Type 0 where
  sum min_ max_ : ZAggregate

unfoldable pub apply : Rounding → ZAggregate → F64 → F64 → F64
apply r sum a b = r.add a b
apply r min_ a b = r.min_of a b
apply r max_ a b = r.max_of a b

-- What a key gives: nothing, a value of another type, or a sorted set.
pub data ZOperand : Type 0 where
  absent no_zset : ZOperand
  sorted : ZSetData → ZOperand

-- 1.0, and the weight of the next key, which is 1 where there is none.
abbrev pub one : F64
one = 0x3ff0000000000000

abbrev pub weight_of : List F64 → F64
weight_of [] = one
weight_of (w ∷ weights) = w

abbrev pub weights_after : List F64 → List F64
weights_after [] = []
weights_after (w ∷ weights) = weights

module _ (r : Rounding) (agg : ZAggregate) where
  -- The entries of a set, weighted, into the result.
  unfoldable pub merge_loop : F64 → List ZEntry → ZSetData → ZSetData
  merge_loop weight [] result = result
  merge_loop weight (e ∷ v) result =
      let weighted = r.mul e.score weight in
      let score : F64 = elim (get_score result e.member) [
        | none ↦ weighted
        | some existing ↦ apply r agg existing weighted
      ] in
      merge_loop weight v (insert r result score e.member).0

  -- The entries of the result that the other set has too.
  unfoldable pub meet_loop : F64 → ZSetData → List ZEntry → ZSetData → ZSetData
  meet_loop weight other [] next = next
  meet_loop weight other (e ∷ v) next = elim (get_score other e.member) [
    | none ↦ meet_loop weight other v next
    | some score ↦
        meet_loop weight other v
          (insert r next (apply r agg e.score (r.mul score weight)) e.member).0
  ]

unfoldable pub weigh_loop : Rounding → F64 → List ZEntry → ZSetData → ZSetData
weigh_loop r weight [] result = result
weigh_loop r weight (e ∷ v) result =
    weigh_loop r weight v (insert r result (r.mul e.score weight) e.member).0

-- The members of the result that a set contains are collected and removed.
unfoldable pub drop_loop : ZSetData → List ZEntry → ZSetData → ZSetData
drop_loop other [] result = result
drop_loop other (e ∷ v) result =
    drop_loop other v (if contains other e.member then (remove result e.member).0 else result)

unfoldable pub insert_entries : Rounding → List ZEntry → ZSetData → ZSetData
insert_entries r [] z = z
insert_entries r (e ∷ v) z = insert_entries r v (insert r z e.score e.member).0

module _ {S : Type 0} (r : Rounding) (c : Clock) (s : Store ZSetData S) where
  unfoldable pub zoperand : Bytes → ZOperand
  zoperand k = elim (get_ref s.contents k) [
    | none ↦ absent
    | some v ↦
        if is_expired c v
        then absent
        else elim (as_zset v.value) [ none ↦ no_zset | some z ↦ sorted z ]
  ]

  unfoldable pub zunion_loop : ZAggregate → List Bytes → List F64 → ZSetData → Result ZSetData
  zunion_loop agg [] weights result = ok result
  zunion_loop agg (k ∷ keys) weights result = elim (zoperand k) [
    | absent ↦ zunion_loop agg keys (weights_after weights) result
    | no_zset ↦ err wrong_type
    | sorted z ↦
        zunion_loop agg keys (weights_after weights)
          (merge_loop r agg (weight_of weights) z.entries result)
  ]

  unfoldable pub zinter_loop : ZAggregate → List Bytes → List F64 → ZSetData → Result ZSetData
  zinter_loop agg [] weights result = ok result
  zinter_loop agg (k ∷ keys) weights result = elim (zoperand k) [
    | absent ↦ ok new
    | no_zset ↦ err wrong_type
    | sorted z ↦
        zinter_loop agg keys (weights_after weights)
          (meet_loop r agg (weight_of weights) z result.entries new)
  ]

  unfoldable pub zinter_sets : ZAggregate → List Bytes → List F64 → Result ZSetData
  zinter_sets agg [] weights = ok new
  zinter_sets agg (k ∷ keys) weights = elim (zoperand k) [
    | absent ↦ ok new
    | no_zset ↦ err wrong_type
    | sorted z ↦
        zinter_loop agg keys (weights_after weights)
          (weigh_loop r (weight_of weights) z.entries new)
  ]

  unfoldable pub zdiff_loop : List Bytes → ZSetData → Result ZSetData
  zdiff_loop [] result = ok result
  zdiff_loop (k ∷ keys) result = elim (zoperand k) [
    | absent ↦ zdiff_loop keys result
    | no_zset ↦ err wrong_type
    | sorted z ↦ zdiff_loop keys (drop_loop z result.entries result)
  ]

  unfoldable pub zdiff_sets : List Bytes → Result ZSetData
  zdiff_sets [] = ok new
  zdiff_sets (k ∷ keys) = elim (zoperand k) [
    | absent ↦ ok new
    | no_zset ↦ err wrong_type
    | sorted z ↦ zdiff_loop keys z
  ]

  -- `self.data.insert(dst, StoreValue::zset(result))`, where nothing is stored after an error.
  unfoldable pub store_zset : Bytes → Result ZSetData → Store ZSetData S × Result ℕ
  store_zset dst (err e) = (s, err e)
  store_zset dst (ok z) = (put s dst (fresh_zset z), ok (len z))

  unfoldable pub zunion : List Bytes → List F64 → ZAggregate → Result (List (Bytes × F64))
  zunion keys weights agg = map_ok (λ z. pairs z.entries) (zunion_loop agg keys weights new)

  unfoldable pub zunionstore :
      Bytes → List Bytes → List F64 → ZAggregate → Store ZSetData S × Result ℕ
  zunionstore dst keys weights agg = store_zset dst (zunion_loop agg keys weights new)

  unfoldable pub zinter : List Bytes → List F64 → ZAggregate → Result (List (Bytes × F64))
  zinter keys weights agg = map_ok (λ z. pairs z.entries) (zinter_sets agg keys weights)

  unfoldable pub zinterstore :
      Bytes → List Bytes → List F64 → ZAggregate → Store ZSetData S × Result ℕ
  zinterstore dst keys weights agg = store_zset dst (zinter_sets agg keys weights)

  unfoldable pub zdiff : List Bytes → Result (List (Bytes × F64))
  zdiff keys = map_ok (λ z. pairs z.entries) (zdiff_sets keys)

  unfoldable pub zdiffstore : Bytes → List Bytes → Store ZSetData S × Result ℕ
  zdiffstore dst keys =
      store_zset dst (map_ok (λ z. insert_entries r z.entries new) (zdiff_sets keys))
