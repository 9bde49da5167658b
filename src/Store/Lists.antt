-- ===== src/Store/Lists.antt =====
-- src/storage/list.rs: the list commands. A closure that the map runs under a key's lock is a function
-- from the value to the new value and the closure's result.
pub mod Deque
pub mod Index
pub mod Edit
pub mod Refine
pub mod Entries
pub mod Commands
pub mod Move
pub mod Contents
use flash_db.Base.{
  ℕ, zero, suc, ◌+◌, ◌-◌, ◌%◌, ◌^◌, Bool, true, false, Option, none, some, List, [], ◌∷◌, ◌++◌, map,
  reverse, Bytes, length, get_elem?, set, take, drop, min, ltb, leb, ◌==◌, ◌=ₛ◌, ◌&&◌, ◌||◌,
  if◌then◌else◌,
}
use flash_db.Base.Int.{ℤ, pos, negsuc}
use flash_db.Map.{CustomMap, get_ref, insert, update_with, read_consistent}
use flash_db.Value.{FyroDb, list, StoreValue, Clock, is_expired, as_list, with_list}
use flash_db.Value.Collections
use flash_db.Value.Collections.{ListInner}
use flash_db.Store.{Store, Result, ok, err, Error, wrong_type, no_such_key, index_out_of_range}
use flash_db.Store.Update.{or_absent, modify, upsert}
use flash_db.Store.Lists.Deque.{
  push_fronts, push_backs, pop_front, pop_back, pop_fronts, pop_backs, clamp_start, clamp_stop,
  range, trim, remove_forward, remove_backward, remove_all, position, insert_at, lpos_loop,
  enumerate,
}
use flash_db.Store.Lists.Index.{normalize_index}

module _ {Z S : Type 0} where
  -- `FyroDB::List(Box::new(ListInner::Compact(l)))` with no expiry
  pub fresh : List Bytes → StoreValue Z S
  fresh l = record { value = list (ListInner.compact l); expires_ms = 0 }

  -- A closure of a value that is not expired: an error unless it is a list.
  pub on_list :
      {R : Type 0}
      → (List Bytes → List Bytes × Result R)
      → StoreValue Z S
      → StoreValue Z S × Result R
  on_list f v = elim (as_list v.value) [
    | none ↦ (v, err wrong_type)
    | some l ↦ let (l', r) = f l in (record v { value = with_list v.value l' }, r)
  ]

  -- LPUSH on an expired key walks the values backwards.
  pub lpush_entry : Clock → List Bytes → StoreValue Z S → StoreValue Z S × Result ℕ
  lpush_entry c values v =
      let l0 = push_fronts (reverse values) [] in
      if is_expired c v
      then (fresh l0, ok (length l0))
      else on_list (λ l. (push_fronts values l, ok (length (push_fronts values l)))) v

  unfoldable pub lpush : Clock → Store Z S → Bytes → List Bytes → Store Z S × Result ℕ
  lpush c s key values =
      let l = push_fronts values [] in upsert s key (lpush_entry c values) (fresh l) (length l)

  pub rpush_entry : Clock → List Bytes → StoreValue Z S → StoreValue Z S × Result ℕ
  rpush_entry c values v =
      let l0 = push_backs values [] in
      if is_expired c v
      then (fresh l0, ok (length l0))
      else on_list (λ l. (push_backs values l, ok (length (push_backs values l)))) v

  -- RPUSH on a missing key stores the list by `StoreValue::list`, in the full form.
  unfoldable pub rpush : Clock → Store Z S → Bytes → List Bytes → Store Z S × Result ℕ
  rpush c s key values =
      let l = push_backs values [] in
      upsert s key (rpush_entry c values)
        (record { value = list (ListInner.full l); expires_ms = 0 }) (length l)

  pub lpop_entry : Clock → ℕ → StoreValue Z S → StoreValue Z S × Result (List Bytes)
  lpop_entry c count v =
      if is_expired c v
      then (v, ok [])
      else on_list (λ l. let (out, left) = pop_fronts (min count (length l)) l in (left, ok out)) v

  unfoldable pub lpop : Clock → Store Z S → Bytes → ℕ → Store Z S × Result (List Bytes)
  lpop c s key count = modify s key (lpop_entry c count) []

  pub rpop_entry : Clock → ℕ → StoreValue Z S → StoreValue Z S × Result (List Bytes)
  rpop_entry c count v =
      if is_expired c v
      then (v, ok [])
      else on_list (λ l. let (out, left) = pop_backs (min count (length l)) l in (left, ok out)) v

  unfoldable pub rpop : Clock → Store Z S → Bytes → ℕ → Store Z S × Result (List Bytes)
  rpop c s key count = modify s key (rpop_entry c count) []

  -- A read through `get_ref`: what a missing or expired key, a list, and another value give.
  unfoldable pub read_list :
      {R : Type 0} → Clock → Store Z S → Bytes → R → (List Bytes → R) → Result R
  read_list c s key absent f = elim (get_ref s.contents key) [
    | none ↦ ok absent
    | some v ↦
        if is_expired c v
        then ok absent
        else elim (as_list v.value) [ none ↦ err wrong_type | some l ↦ ok (f l) ]
  ]

  unfoldable pub llen : Clock → Store Z S → Bytes → Result ℕ
  llen c s key = read_list c s key 0 length

  unfoldable pub lindex : Clock → Store Z S → Bytes → ℤ → Result (Option Bytes)
  lindex c s key index =
      read_list c s key none
        (λ l. elim (normalize_index index (length l)) [ none ↦ none | some i ↦ get_elem? l i ])

  pub lrange_entry : Clock → ℤ → ℤ → StoreValue Z S → Result (List Bytes)
  lrange_entry c start stop v =
      if is_expired c v
      then ok []
      else elim (as_list v.value) [ none ↦ err wrong_type | some l ↦ ok (range l start stop) ]

  unfoldable pub lrange : Clock → Store Z S → Bytes → ℤ → ℤ → Result (List Bytes)
  lrange c s key start stop =
      or_absent [] (read_consistent s.contents key (lrange_entry c start stop))
