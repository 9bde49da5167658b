-- ===== src/Store/Keys.antt =====
-- src/storage/keys.rs: the commands on keys of any type. `randomkey` is not modelled: it draws from the
-- address of a local variable.
pub mod Renames
pub mod Expiry
use flash_db.Base.{
  ℕ, zero, suc, ◌+◌, ◌-◌, ◌%◌, ◌^◌, Bool, true, false, not, ◌&&◌, ◌||◌, Option, none, some, List,
  [], ◌∷◌, ◌++◌, Bytes, min, ◌==◌, ◌=ₛ◌, if◌then◌else◌,
}
use flash_db.Base.Int.{ℤ, pos, negsuc}
use flash_db.Util.{glob_match}
use flash_db.Map.{
  CustomMap, Entry, get_ref, insert, insert_if_absent, remove, remove_no_clone, update_with,
}
use flash_db.Value.{StoreValue, Clock, is_expired, is_expired_precise, ttl_ms}
use flash_db.Store.{Store, add_ttl, sub_ttl}

abbrev pub unwrap_or : {A : Type 0} → A → Option A → A
unwrap_or d none = d
unwrap_or d (some a) = a

module _ {Z S : Type 0} where
  unfoldable pub del : Store Z S → Bytes → Store Z S × Bool
  del s key =
      let (m, removed) = remove_no_clone s.contents key in (record s { contents = m }, removed)

  unfoldable pub exists : Clock → Store Z S → Bytes → Bool
  exists c s key = elim (get_ref s.contents key) [
    | none ↦ false
    | some v ↦ not (is_expired_precise c v)
  ]

  -- The closures give whether the value had no expiry, and for `persist` whether it had one.
  unfoldable pub expire_entry : Clock → ℕ → StoreValue Z S → StoreValue Z S × Bool
  expire_entry c abs_ms v =
      if is_expired c v then (v, false) else (record v { expires_ms = abs_ms }, v.expires_ms == 0)

  unfoldable pub persist_entry : Clock → StoreValue Z S → StoreValue Z S × Bool
  persist_entry c v =
      if is_expired c v || (v.expires_ms == 0)
      then (v, false)
      else (record v { expires_ms = 0 }, true)

  -- `if ok { self.add_ttl(); }` or `if ok { self.sub_ttl(); }`, and the result.
  unfoldable pub accounted : (Store Z S → Store Z S) → Store Z S → Bool → Store Z S × Bool
  accounted count s ok = (if ok then count s else s, ok)

  unfoldable pub expire_ms : Clock → Store Z S → Bytes → ℕ → Store Z S × Bool
  expire_ms c s key abs_ms =
      let (m, result) = update_with s.contents key (expire_entry c abs_ms) in
      accounted add_ttl (record s { contents = m }) (unwrap_or false result)

  -- The duration is in milliseconds; the sum on u64 wraps.
  unfoldable pub expire : Clock → Store Z S → Bytes → ℕ → Store Z S × Bool
  expire c s key duration = expire_ms c s key ((c.now_ms + duration % 2 ^ 64) % 2 ^ 64)

  unfoldable pub persist : Clock → Store Z S → Bytes → Store Z S × Bool
  persist c s key =
      let (m, result) = update_with s.contents key (persist_entry c) in
      accounted sub_ttl (record s { contents = m }) (unwrap_or false result)

  unfoldable pub ttl : Clock → Store Z S → Bytes → Option ℕ
  ttl c s key = elim (get_ref s.contents key) [
    | none ↦ none
    | some v ↦ if is_expired c v then none else ttl_ms c v
  ]

  -- -2 for no key and -1 for no expiry; an expiry that has passed on the exact clock gives -1 too.
  unfoldable pub ttl_value_ms : Clock → Store Z S → Bytes → ℤ
  ttl_value_ms c s key = elim (get_ref s.contents key) [
    | none ↦ negsuc 1
    | some v ↦
        if is_expired c v
        then negsuc 1
        else elim (ttl_ms c v) [ none ↦ negsuc 0 | some ms ↦ pos (min ms (2 ^ 63 - 1)) ]
  ]

  -- The `match` on what `remove` returns, at the store without the old key.
  unfoldable pub renamed : Clock → Store Z S → Bytes → Option (StoreValue Z S) → Store Z S × Bool
  renamed c s new_key none = (s, false)
  renamed c s new_key (some entry) =
      if is_expired c entry
      then (s, false)
      else (record s { contents = (insert s.contents new_key entry).0 }, true)

  unfoldable pub rename : Clock → Store Z S → Bytes → Bytes → Store Z S × Bool
  rename c s old_key new_key =
      let (m, removed) = remove s.contents old_key in
      if old_key =ₛ new_key
      then (s, exists c s old_key)
      else renamed c (record s { contents = m }) new_key removed

  -- `if self.data.insert_if_absent(…)`, and the old key put back if the new one is there.
  unfoldable pub renamed_nx :
      Clock → Store Z S → Bytes → Bytes → Option (StoreValue Z S) → Store Z S × Bool
  renamed_nx c s old_key new_key none = (s, false)
  renamed_nx c s old_key new_key (some entry) =
      let (m, inserted) = insert_if_absent s.contents new_key entry in
      let stored = if inserted then m else (insert m old_key entry).0 in
      if is_expired c entry then (s, false) else (record s { contents = stored }, inserted)

  unfoldable pub renamenx : Clock → Store Z S → Bytes → Bytes → Store Z S × Bool
  renamenx c s old_key new_key =
      let (m, removed) = remove s.contents old_key in
      if old_key =ₛ new_key
      then (s, exists c s old_key)
      else renamed_nx c (record s { contents = m }) old_key new_key removed

  unfoldable pub copied :
      Clock → Store Z S → Bytes → Bool → Option (StoreValue Z S) → Store Z S × Bool
  copied c s dst replace none = (s, false)
  copied c s dst replace (some entry) =
      let (m, inserted) = insert_if_absent s.contents dst entry in
      if is_expired c entry
      then (s, false)
      else (if replace
          then (record s { contents = (insert s.contents dst entry).0 }, true)
          else (record s { contents = m }, inserted))

  unfoldable pub copy : Clock → Store Z S → Bytes → Bytes → Bool → Store Z S × Bool
  copy c s src dst replace = copied c s dst replace (get_ref s.contents src)

  -- `for_each` over the occupied entries
  unfoldable pub matching : Clock → Bytes → List (Entry (StoreValue Z S)) → List Bytes
  matching c pattern [] = []
  matching c pattern ((k, none) ∷ es) = matching c pattern es
  matching c pattern ((k, some v) ∷ es) =
      let rest = matching c pattern es in
      if not (is_expired c v) && glob_match pattern k then k ∷ rest else rest

  unfoldable pub keys_matching : Clock → Store Z S → Bytes → List Bytes
  keys_matching c s pattern = matching c pattern s.contents.entries
