-- ===== src/Store/Hashes.antt =====
-- src/storage/hash.rs: the hash commands, without the one on floating-point numbers.
pub mod Setting
pub mod Counting
mod Tests
use flash_db.Base.{
  ℕ, zero, suc, ◌+◌, Bool, true, false, Option, none, some, List, [], ◌∷◌, map, Bytes, codes,
  length, replicate, if◌then◌else◌,
}
use flash_db.Base.Int.{ℤ, ◌+ℤ◌}
use flash_db.Resp.Number.Parse.{parse_i64, checked_i64}
use flash_db.Resp.Replies.{signed}
use flash_db.Map.{read_consistent, update_with, insert_if_absent}
use flash_db.Value.{FyroDb, hash, StoreValue, Clock, is_expired, as_hash}
use flash_db.Value.Collections.{HashInner, Pairs}
use flash_db.Value.Collections.Hash.{
  get, insert_small, remove, contains_key, len, flat, keys, values, iter, map_insert,
}
use flash_db.Store.{Store, Result, ok, err, wrong_type, not_an_integer, would_overflow}
use flash_db.Store.Update.{or_absent, modify, upsert, on_entry, read_as}

-- The loop of HSET over a hash that is there.
unfoldable pub hset_loop : Pairs → HashInner → ℕ → HashInner × ℕ
hset_loop [] h added = (h, added)
hset_loop ((f, v) ∷ fields) h added =
    hset_loop fields (insert_small h f v).0 (if contains_key h f then added else added + 1)

unfoldable pub hset_fields : Pairs → HashInner → HashInner × Result ℕ
hset_fields fields h = let (h', added) = hset_loop fields h 0 in (h', ok added)

unfoldable pub hsetnx_field : Bytes → Bytes → HashInner → HashInner × Result Bool
hsetnx_field field value h =
    if contains_key h field then (h, ok false) else ((insert_small h field value).0, ok true)

unfoldable pub hdel_loop : List Bytes → HashInner → ℕ → HashInner × ℕ
hdel_loop [] h n = (h, n)
hdel_loop (f ∷ fields) h n =
    let (h', removed) = remove h f in
    hdel_loop fields h' (elim removed [ none ↦ n | some x ↦ n + 1 ])

unfoldable pub hdel_fields : List Bytes → HashInner → HashInner × Result ℕ
hdel_fields fields h = let (h', n) = hdel_loop fields h 0 in (h', ok n)

abbrev pub or_zero : Option Bytes → Bytes
or_zero none = codes "0"
or_zero (some x) = x

unfoldable pub hincrby_field : Bytes → ℤ → HashInner → HashInner × Result ℤ
hincrby_field field by h = elim (parse_i64 (or_zero (get h field))) [
  | none ↦ (h, err not_an_integer)
  | some n ↦ elim (checked_i64 (n +ℤ by)) [
    | none ↦ (h, err would_overflow)
    | some sum ↦ ((insert_small h field (signed sum)).0, ok sum)
  ]
]

module _ {Z S : Type 0} where
  abbrev pub stored : HashInner → StoreValue Z S
  stored h = record { value = hash h; expires_ms = 0 }

  -- The pairs one after the other, as they were given.
  abbrev pub compact_hash : Pairs → StoreValue Z S
  compact_hash fields = stored (HashInner.compact (flat fields))

  -- `StoreValue::hash` of a `HashMap` of one field
  abbrev pub full_hash : Bytes → Bytes → StoreValue Z S
  full_hash field value = stored (HashInner.full (map_insert field value []))

  unfoldable pub hset_entry : Clock → Pairs → StoreValue Z S → StoreValue Z S × Result ℕ
  hset_entry c fields =
      on_entry as_hash hash c (λ v. (compact_hash fields, ok (length fields))) (hset_fields fields)

  unfoldable pub hset : Clock → Store Z S → Bytes → Pairs → Store Z S × Result ℕ
  hset c s key fields = upsert s key (hset_entry c fields) (compact_hash fields) (length fields)

  unfoldable pub hsetnx : Clock → Store Z S → Bytes → Bytes → Bytes → Store Z S × Result Bool
  hsetnx c s key field value =
      upsert s key
        (on_entry as_hash hash c (λ v. (compact_hash ((field, value) ∷ []), ok true))
          (hsetnx_field field value))
        (full_hash field value) true

  unfoldable pub hget : Clock → Store Z S → Bytes → Bytes → Result (Option Bytes)
  hget c s key field = read_as as_hash c s key none (λ h. get h field)

  unfoldable pub hmget : Clock → Store Z S → Bytes → List Bytes → Result (List (Option Bytes))
  hmget c s key fields =
      read_as as_hash c s key (replicate (length fields) none) (λ h. map (get h) fields)

  -- The closure of the reads under `read_consistent`.
  unfoldable pub hash_entry :
      {A : Type 0} → Clock → (HashInner → List A) → StoreValue Z S → Result (List A)
  hash_entry c f v =
      if is_expired c v
      then ok []
      else elim (as_hash v.value) [ none ↦ err wrong_type | some h ↦ ok (f h) ]

  unfoldable pub hgetall : Clock → Store Z S → Bytes → Result Pairs
  hgetall c s key = or_absent [] (read_consistent s.contents key (hash_entry c iter))

  unfoldable pub hdel : Clock → Store Z S → Bytes → List Bytes → Store Z S × Result ℕ
  hdel c s key fields =
      modify s key (on_entry as_hash hash c (λ v. (v, ok 0)) (hdel_fields fields)) 0

  unfoldable pub hexists : Clock → Store Z S → Bytes → Bytes → Result Bool
  hexists c s key field = read_as as_hash c s key false (λ h. contains_key h field)

  unfoldable pub hlen : Clock → Store Z S → Bytes → Result ℕ
  hlen c s key = read_as as_hash c s key 0 len

  unfoldable pub hkeys : Clock → Store Z S → Bytes → Result (List Bytes)
  hkeys c s key = or_absent [] (read_consistent s.contents key (hash_entry c keys))

  unfoldable pub hvals : Clock → Store Z S → Bytes → Result (List Bytes)
  hvals c s key = or_absent [] (read_consistent s.contents key (hash_entry c values))

  unfoldable pub hincrby_entry : Clock → Bytes → ℤ → StoreValue Z S → StoreValue Z S × Result ℤ
  hincrby_entry c field by =
      on_entry as_hash hash c (λ v. (compact_hash ((field, signed by) ∷ []), ok by))
        (hincrby_field field by)

  -- HINCRBY starts again if the key appears between its two looks; the fuel bounds its rounds.
  unfoldable pub hincrby_rounds :
      ℕ → Clock → Store Z S → Bytes → Bytes → ℤ → Store Z S × Option (Result ℤ)
  hincrby_rounds zero c s key field by = (s, none)
  hincrby_rounds (suc fuel) c s key field by =
      let (m, result) = update_with s.contents key (hincrby_entry c field by) in
      let (m', inserted) = insert_if_absent m key (full_hash field (signed by)) in
      let again = hincrby_rounds fuel c (record s { contents = m' }) key field by in
      elim result [
        | some r ↦ (record s { contents = m }, some r)
        | none ↦ if inserted then (record s { contents = m' }, some (ok by)) else again
      ]

  unfoldable pub hincrby : Clock → Store Z S → Bytes → Bytes → ℤ → Store Z S × Option (Result ℤ)
  hincrby c s key field by = hincrby_rounds 1 c s key field by
