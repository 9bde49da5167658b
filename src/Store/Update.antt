-- ===== src/Store/Update.antt =====
-- How the commands of src/storage/ on one key use the map: a closure that runs under the key's lock is a
-- function from the value to the new value and the closure's result, and a missing key is dealt with after.
pub mod Refine
use flash_db.Base.{Option, none, some, Bytes, if◌then◌else◌}
use flash_db.Map.{CustomMap, get_ref, insert, update_with}
use flash_db.Value.{FyroDb, StoreValue, Clock, is_expired}
use flash_db.Store.{Store, Result, ok, err, wrong_type}

-- `match result { Some(r) => r, None => … }` where a missing key changes nothing.
unfoldable pub or_absent : {R : Type 0} → R → Option (Result R) → Result R
or_absent absent none = ok absent
or_absent absent (some r) = r

-- `map` of a `Result`
unfoldable pub map_ok : {A B : Type 0} → (A → B) → Result A → Result B
map_ok f (ok a) = ok (f a)
map_ok f (err e) = err e

module _ {Z S : Type 0} where
  -- A command whose closure runs on the value of a key, and what a missing key gets.
  unfoldable pub modify :
      {R : Type 0}
      → Store Z S
      → Bytes
      → (StoreValue Z S → StoreValue Z S × Result R)
      → R
      → Store Z S × Result R
  modify s key f absent =
      let (m, result) = update_with s.contents key f in
      (record s { contents = m }, or_absent absent result)

  -- `self.data.insert(key, value)`
  unfoldable pub put : Store Z S → Bytes → StoreValue Z S → Store Z S
  put s key value = record s { contents = (insert s.contents key value).0 }

  -- The `match result` of a command that stores a value if the key is missing.
  unfoldable pub settle :
      {R : Type 0}
      → Store Z S
      → CustomMap (StoreValue Z S)
      → Bytes
      → StoreValue Z S
      → R
      → Option (Result R)
      → Store Z S × Result R
  settle s m key value absent (some r) = (record s { contents = m }, r)
  settle s m key value absent none = (put s key value, ok absent)

  -- A command that stores a value, and returns a result of its own, if the key is missing.
  unfoldable pub upsert :
      {R : Type 0}
      → Store Z S
      → Bytes
      → (StoreValue Z S → StoreValue Z S × Result R)
      → StoreValue Z S
      → R
      → Store Z S × Result R
  upsert s key f value absent =
      let (m, result) = update_with s.contents key f in settle s m key value absent result

  -- The closure of a command on one type of value: an expired value is dealt with by `expired`, and
  -- a value of another type is an error.
  unfoldable pub on_entry :
      {A R : Type 0}
      → (FyroDb Z S → Option A)
      → (A → FyroDb Z S)
      → Clock
      → (StoreValue Z S → StoreValue Z S × Result R)
      → (A → A × Result R)
      → StoreValue Z S
      → StoreValue Z S × Result R
  on_entry get put c expired f v = if is_expired c v then expired v else elim (get v.value) [
    | none ↦ (v, err wrong_type)
    | some a ↦ let (a', r) = f a in (record v { value = put a' }, r)
  ]

  -- A read: what a missing or expired key, a value of the type, and another value give.
  unfoldable pub read_as :
      {A R : Type 0} → (FyroDb Z S → Option A) → Clock → Store Z S → Bytes → R → (A → R) → Result R
  read_as get c s key absent f = elim (get_ref s.contents key) [
    | none ↦ ok absent
    | some v ↦
        if is_expired c v
        then ok absent
        else elim (get v.value) [ none ↦ err wrong_type | some a ↦ ok (f a) ]
  ]
