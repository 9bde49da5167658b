-- ===== src/Store/Strings.antt =====
-- src/storage/string.rs: the commands that read, write and extend a string. `try_set_string`, `get_to_buf`,
-- the ranges, INCRBYFLOAT and LCS are not modelled. A string is its bytes.
pub mod Commands
pub mod Expiries
pub mod Counters
mod Tests
use flash_db.Base.{
  ℕ, Bool, true, false, Option, none, some, ◌++◌, Bytes, ◌==◌, length, if◌then◌else◌,
}
use flash_db.Map
use flash_db.Map.{
  CustomMap, Full, insert, insert_if_absent, remove, update_with, try_update, try_insert,
  with_entry, get_ref,
}
use flash_db.Value.{string, StoreValue, Clock, is_expired, as_string}
use flash_db.Store.{Store, Result, ok, err, wrong_type, add_ttl, sub_ttl}

-- The change that the closure asks of the count: one more, one fewer or none.
pub data TtlChange : Type 0 where
  gains loses keeps : TtlChange

abbrev pub ttl_change : Bool → Bool → TtlChange
ttl_change true false = gains
ttl_change false true = loses
ttl_change _ _ = keeps

module _ {Z S : Type 0} where
  abbrev pub string_value : Bytes → StoreValue Z S
  string_value text = record { value = string text; expires_ms = 0 }

  -- `if expires_ms != 0 { self.add_ttl(); }`
  abbrev pub counted : ℕ → Store Z S → Store Z S
  counted expires_ms s = if expires_ms == 0 then s else add_ttl s

  unfoldable pub set : Store Z S → Bytes → StoreValue Z S → Store Z S
  set s key v =
      let s' = counted v.expires_ms s in record s' { contents = (insert s'.contents key v).0 }

  -- The count has grown when the map turns out to be full.
  unfoldable pub try_set_value : Store Z S → Bytes → StoreValue Z S → Store Z S × Full Bool
  try_set_value s key v =
      let s' = counted v.expires_ms s in
      let (m, r) = try_insert s'.contents key v in (record s' { contents = m }, r)

  unfoldable pub set_string : Store Z S → Bytes → Bytes → ℕ → Store Z S
  set_string s key text expires_ms =
      let v : StoreValue Z S = record { value = string text; expires_ms = expires_ms } in
      counted expires_ms (record s { contents = (Map.set s.contents key v).0 })

  -- `Err(())` of the closure, for an expired value, is `none`.
  unfoldable pub read_entry : Clock → StoreValue Z S → Option (Option Bytes)
  read_entry c v = if is_expired c v then none else some (as_string v.value)

  unfoldable pub get : Clock → Store Z S → Bytes → Store Z S × Option Bytes
  get c s key = elim (with_entry s.contents key (read_entry c)) [
    | none ↦ (s, none)
    | some none ↦ (record s { contents = (remove s.contents key).0 }, none)
    | some (some r) ↦ (s, r)
  ]

  unfoldable pub getdel : Clock → Store Z S → Bytes → Store Z S × Option Bytes
  getdel c s key =
      let (m, removed) = remove s.contents key in
      (
        record s { contents = m },
        elim removed [ none ↦ none | some v ↦ if is_expired c v then none else as_string v.value ],
      )

  unfoldable pub getset_entry : Clock → Bytes → StoreValue Z S → StoreValue Z S × Option Bytes
  getset_entry c text v = (string_value text, if is_expired c v then none else as_string v.value)

  unfoldable pub getset : Clock → Store Z S → Bytes → Bytes → Store Z S × Option Bytes
  getset c s key new_value =
      let (m, result) = try_update s.contents key (λ v. some (getset_entry c new_value v)) in
      elim result [
        | some old ↦ (record s { contents = m }, old)
        | none ↦ (record s { contents = (insert m key (string_value new_value)).0 }, none)
      ]

  unfoldable pub getex_entry :
      Clock → ℕ → StoreValue Z S → StoreValue Z S × (Option Bytes × TtlChange)
  getex_entry c expires_ms v =
      if is_expired c v then (v, (none, keeps)) else elim (as_string v.value) [
        | none ↦ (v, (none, keeps))
        | some text ↦ (
          record v { expires_ms = expires_ms },
          (some text, ttl_change (v.expires_ms == 0) (expires_ms == 0)),
        )
      ]

  abbrev pub recount : TtlChange → Store Z S → Store Z S
  recount gains s = add_ttl s
  recount loses s = sub_ttl s
  recount keeps s = s

  -- The `?` on what `update_with` returns, the match on the change, and the result.
  unfoldable pub recounted :
      Store Z S
      → CustomMap (StoreValue Z S)
      → Option (Option Bytes × TtlChange)
      → Store Z S × Option Bytes
  recounted s m none = (s, none)
  recounted s m (some r) = (recount r.1 (record s { contents = m }), r.0)

  unfoldable pub getex_ms : Clock → Store Z S → Bytes → ℕ → Store Z S × Option Bytes
  getex_ms c s key expires_ms =
      let done = update_with s.contents key (getex_entry c expires_ms) in recounted s done.0 done.1

  unfoldable pub setnx_entry : Clock → Bytes → StoreValue Z S → StoreValue Z S × Bool
  setnx_entry c text v = if is_expired c v then (string_value text, true) else (v, false)

  unfoldable pub setnx : Clock → Store Z S → Bytes → Bytes → Store Z S × Bool
  setnx c s key text =
      let (m, result) = try_update s.contents key (λ v. some (setnx_entry c text v)) in
      elim result [
        | some replaced ↦ (record s { contents = m }, replaced)
        | none ↦
            let (m', inserted) = insert_if_absent m key (string_value text) in
            (record s { contents = m' }, inserted)
      ]

  unfoldable pub append_entry : Clock → Bytes → StoreValue Z S → StoreValue Z S × Result ℕ
  append_entry c suffix v =
      if is_expired c v
      then (string_value suffix, ok (length suffix))
      else elim (as_string v.value) [
        | none ↦ (v, err wrong_type)
        | some text ↦ (record v { value = string (text ++ suffix) }, ok (length (text ++ suffix)))
      ]

  unfoldable pub append : Clock → Store Z S → Bytes → Bytes → Store Z S × Result ℕ
  append c s key suffix =
      let (m, result) = update_with s.contents key (append_entry c suffix) in
      elim result [
        | some r ↦ (record s { contents = m }, r)
        | none ↦
            (record s { contents = (insert m key (string_value suffix)).0 }, ok (length suffix))
      ]

  unfoldable pub strlen : Clock → Store Z S → Bytes → Result ℕ
  strlen c s key = elim (get_ref s.contents key) [
    | none ↦ ok 0
    | some v ↦
        if is_expired c v
        then ok 0
        else elim (as_string v.value) [ none ↦ err wrong_type | some text ↦ ok (length text) ]
  ]
