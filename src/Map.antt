-- ===== src/Map.antt =====
-- crates/customhash/src/lib.rs and the lookups of shard.rs: the map from keys to values, as one caller
-- sees it. An entry stays in its slot when its key is removed; only its `STATE_OCCUPIED` bit goes.
pub mod Find
pub mod Laws
pub mod Counts
mod Tests
use mathlib.Core.Option
use flash_db.Base.{
  ℕ, ◌+◌, ◌-◌, Bool, true, false, Option, none, some, List, [], ◌∷◌, ◌++◌, Bytes, ◌=ₛ◌, leb, ◌==◌,
  if◌then◌else◌,
}

-- The key of an entry and its value; `none` is an entry whose `STATE_OCCUPIED` bit is clear.
abbrev pub Entry : Type 0 → Type 0
Entry V = Bytes × Option V

pub record CustomMap (V : Type 0) : Type 0 where
  -- the entries of all shards, in any order
  pub entries : List (Entry V)
  pub key_count : ℕ
  pub max_keys : ℕ

-- `Err(Full)` of `try_insert` and `try_set`
pub data Full (A : Type 0) : Type 0 where
  done : A → Full A
  full : Full A

unfoldable pub with_capacity : {V : Type 0} → ℕ → CustomMap V
with_capacity expected_keys = record { entries = []; key_count = 0; max_keys = expected_keys }

module _ {V : Type 0} where
  -- `Shard::find`: the entry of a key, occupied or not
  unfoldable pub find : Bytes → List (Entry V) → Option (Option V)
  find k [] = none
  find k ((j, c) ∷ es) = if j =ₛ k then some c else find k es

  -- A write to the value cell and the occupied bit of the entry that `find` returns.
  unfoldable pub write : Bytes → Option V → List (Entry V) → List (Entry V)
  write k c [] = []
  write k c ((j, d) ∷ es) = if j =ₛ k then (j, c) ∷ es else (j, d) ∷ write k c es

  abbrev pub occupied : Option (Option V) → Option V
  occupied none = none
  occupied (some c) = c

  unfoldable pub get_ref : CustomMap V → Bytes → Option V
  get_ref m k = occupied (find k m.entries)

  unfoldable pub get : CustomMap V → Bytes → Option V
  unfolding get_ref
  get m k = get_ref m k

  unfoldable pub contains_key : CustomMap V → Bytes → Bool
  contains_key m k = elim (get_ref m k) [ none ↦ false | some v ↦ true ]

  unfoldable pub with_entry : {R : Type 0} → CustomMap V → Bytes → (V → R) → Option R
  with_entry m k f = elim (get_ref m k) [ none ↦ none | some v ↦ some (f v) ]

  -- `insert_hashed` of the shard: whether the key is new, and the map.
  unfoldable pub insert : CustomMap V → Bytes → V → CustomMap V × Bool
  insert m k v = elim (find k m.entries) [
    | none ↦
        (record m { entries = m.entries ++ (k, some v) ∷ []; key_count = m.key_count + 1 }, true)
    | some none ↦
        (record m { entries = write k (some v) m.entries; key_count = m.key_count + 1 }, true)
    | some (some old) ↦ (record m { entries = write k (some v) m.entries }, false)
  ]

  unfoldable pub try_insert : CustomMap V → Bytes → V → CustomMap V × Full Bool
  try_insert m k v =
      let (m', is_new) = insert m k v in
      let stored : CustomMap V × Full Bool = (m', done is_new) in
      if leb m.max_keys m.key_count
      then (if contains_key m k then stored else (m, full))
      else stored

  -- `set` writes an entry in place by its own code.
  unfoldable pub set : CustomMap V → Bytes → V → CustomMap V × Bool
  set m k v = elim (find k m.entries) [
    | some (some old) ↦ (record m { entries = write k (some v) m.entries }, false)
    | some none ↦
        (record m { entries = write k (some v) m.entries; key_count = m.key_count + 1 }, true)
    | none ↦
        (record m { entries = m.entries ++ (k, some v) ∷ []; key_count = m.key_count + 1 }, true)
  ]

  unfoldable pub try_set : CustomMap V → Bytes → V → CustomMap V × Full Bool
  try_set m k v =
      let (m', is_new) = set m k v in
      let stored : CustomMap V × Full Bool = (m', done is_new) in
      if leb m.max_keys m.key_count
      then (if contains_key m k then stored else (m, full))
      else stored

  unfoldable pub remove : CustomMap V → Bytes → CustomMap V × Option V
  remove m k = elim (find k m.entries) [
    | none ↦ (m, none)
    | some none ↦ (m, none)
    | some (some v) ↦
        (record m { entries = write k none m.entries; key_count = m.key_count - 1 }, some v)
  ]

  unfoldable pub remove_no_clone : CustomMap V → Bytes → CustomMap V × Bool
  remove_no_clone m k = elim (find k m.entries) [
    | none ↦ (m, false)
    | some none ↦ (m, false)
    | some (some v) ↦
        (record m { entries = write k none m.entries; key_count = m.key_count - 1 }, true)
  ]

  unfoldable pub remove_with : {R : Type 0} → CustomMap V → Bytes → (V → R) → CustomMap V × Option R
  remove_with m k f = elim (find k m.entries) [
    | none ↦ (m, none)
    | some none ↦ (m, none)
    | some (some v) ↦
        (record m { entries = write k none m.entries; key_count = m.key_count - 1 }, some (f v))
  ]

  -- The closure returns the new value; `update` writes it back.
  unfoldable pub update : {R : Type 0} → CustomMap V → Bytes → (V → V × R) → CustomMap V × Option R
  update m k f = elim (find k m.entries) [
    | none ↦ (m, none)
    | some none ↦ (m, none)
    | some (some v) ↦
        let (v', r) = f v in (record m { entries = write k (some v') m.entries }, some r)
  ]

  unfoldable pub try_update :
      {R : Type 0} → CustomMap V → Bytes → (V → Option (V × R)) → CustomMap V × Option R
  try_update m k f = elim (find k m.entries) [
    | none ↦ (m, none)
    | some none ↦ (m, none)
    | some (some v) ↦ elim (f v) [
      | none ↦ (m, none)
      | some (v', r) ↦ (record m { entries = write k (some v') m.entries }, some r)
    ]
  ]

  -- The closure of `update_with` changes the value where it is.
  unfoldable pub update_with :
      {R : Type 0} → CustomMap V → Bytes → (V → V × R) → CustomMap V × Option R
  update_with m k f = elim (find k m.entries) [
    | none ↦ (m, none)
    | some none ↦ (m, none)
    | some (some v) ↦
        let (v', r) = f v in (record m { entries = write k (some v') m.entries }, some r)
  ]

  unfoldable pub get_locked : {R : Type 0} → CustomMap V → Bytes → (V → R) → Option R
  get_locked m k f = elim (find k m.entries) [
    | none ↦ none
    | some none ↦ none
    | some (some v) ↦ some (f v)
  ]

  -- With no writer at work the sequence number is even and the first read stands.
  unfoldable pub read_consistent : {R : Type 0} → CustomMap V → Bytes → (V → R) → Option R
  read_consistent m k f = elim (find k m.entries) [
    | none ↦ none
    | some none ↦ none
    | some (some v) ↦ some (f v)
  ]

  unfoldable pub insert_if_absent : CustomMap V → Bytes → V → CustomMap V × Bool
  insert_if_absent m k v = elim (find k m.entries) [
    | some (some old) ↦ (m, false)
    | some none ↦
        (record m { entries = write k (some v) m.entries; key_count = m.key_count + 1 }, true)
    | none ↦
        (record m { entries = m.entries ++ (k, some v) ∷ []; key_count = m.key_count + 1 }, true)
  ]

  unfoldable pub len : CustomMap V → ℕ
  len m = m.key_count

  unfoldable pub is_empty : CustomMap V → Bool
  is_empty m = len m == 0
