-- ===== src/Store/Strings/Expiries.antt =====
-- The commands of src/storage/string.rs against the count of keys with an expiry: how many more such
-- keys each leaves.
use flash_db.Base.{ℕ, ◌+◌, ◌≤◌, ◌<◌, ◌^◌, ◌≡◌, Option, none, some, Bytes, arith}
use flash_db.Map.{CustomMap, get_ref, update_with, try_update}
use flash_db.Map.Laws.{set-insert, update_with_result, try_update-update_with}
use flash_db.Value.{StoreValue, string, Clock}
use flash_db.Store.{Store, add_ttl, sub_ttl}
use flash_db.Store.Ttl.{weight, total, ttl_keys, IsCovered}
use flash_db.Store.Ttl.Counting.{
  total-insert, total-insert_if_absent, total-remove, total-update_with,
}
use flash_db.Base.Int.{ℤ}
use flash_db.Resp.Replies.{signed}
use flash_db.Store.Strings.Counters.{added, int_entry, int_entry_locked, int_op}
use flash_db.Store.Strings.{
  set, set_string, get, getdel, getset, getset_entry, getex_ms, getex_entry, setnx, setnx_entry,
  append, append_entry, string_value, recounted,
}

module _ {Z S : Type 0} (s : Store Z S) (key : Bytes) where
  pub set-IsCovered :
      (v : StoreValue Z S) → s.ttl_count + 1 < 2 ^ 64 → IsCovered s → IsCovered (set s key v)
  unfolding set add_ttl
  set-IsCovered v b h = ground (arith, total-insert s.contents key v)

  pub set_string-IsCovered :
      (text : Bytes) (expires_ms : ℕ)
      → s.ttl_count + 1 < 2 ^ 64
      → IsCovered s
      → IsCovered (set_string s key text expires_ms)
  unfolding set_string add_ttl
  set_string-IsCovered text expires_ms b h =
      let v : StoreValue Z S = record { value = string text; expires_ms = expires_ms } in
      rw (set_string, set-insert s.contents key key v)
        (ground (arith, total-insert s.contents key v))

  pub get-IsCovered : (c : Clock) → IsCovered s → IsCovered (get c s key).0
  unfolding get
  get-IsCovered c h = ground (arith, total-remove s.contents key)

  pub getdel-IsCovered : (c : Clock) → IsCovered s → IsCovered (getdel c s key).0
  unfolding getdel
  getdel-IsCovered c h = omega (arith, total-remove s.contents key)

  total_at_most :
      {R : Type 0} (f : StoreValue Z S → StoreValue Z S × R) (o : Option (StoreValue Z S)) (t : ℕ)
      → ((v : StoreValue Z S) → weight (some (f v).0) ≤ weight (some v))
      → t + weight o ≡ ttl_keys s + weight (elim o [ none ↦ none | some v ↦ some (f v).0 ])
      → t ≤ ttl_keys s
  total_at_most f none t w e = omega arith
  total_at_most f (some v) t w e = omega (arith, w v)

  -- A closure that gives no value an expiry adds none to the map.
  update_with_at_most :
      {R : Type 0} (f : StoreValue Z S → StoreValue Z S × R)
      → ((v : StoreValue Z S) → weight (some (f v).0) ≤ weight (some v))
      → total (update_with s.contents key f).0.entries ≤ ttl_keys s
  update_with_at_most f w =
      total_at_most f (get_ref s.contents key) (total (update_with s.contents key f).0.entries) w
        (total-update_with s.contents key f)

  try_update_at_most :
      {R : Type 0} (f : StoreValue Z S → StoreValue Z S × R)
      → ((v : StoreValue Z S) → weight (some (f v).0) ≤ weight (some v))
      → total (try_update s.contents key (λ v. some (f v))).0.entries ≤ ttl_keys s
  try_update_at_most f w =
      rw (try_update-update_with s.contents key key f) (update_with_at_most f w)

  append-weight :
      (c : Clock) (suffix : Bytes) (v : StoreValue Z S)
      → weight (some (append_entry c suffix v).0) ≤ weight (some v)
  unfolding append_entry
  append-weight c suffix v = ground arith

  getset-weight :
      (c : Clock) (text : Bytes) (v : StoreValue Z S)
      → weight (some (getset_entry c text v).0) ≤ weight (some v)
  unfolding getset_entry
  getset-weight c text v = ground arith

  setnx-weight :
      (c : Clock) (text : Bytes) (v : StoreValue Z S)
      → weight (some (setnx_entry c text v).0) ≤ weight (some v)
  unfolding setnx_entry
  setnx-weight c text v = ground arith

  pub append-IsCovered :
      (c : Clock) (suffix : Bytes) → IsCovered s → IsCovered (append c s key suffix).0
  unfolding append
  append-IsCovered c suffix h =
      let f = append_entry {Z = Z} {S = S} c suffix in
      let t = update_with_at_most f (append-weight c suffix) in
      ground (arith, t, total-insert (update_with s.contents key f).0 key (string_value suffix))

  pub getset-IsCovered :
      (c : Clock) (text : Bytes) → IsCovered s → IsCovered (getset c s key text).0
  unfolding getset
  getset-IsCovered c text h =
      let f = getset_entry {Z = Z} {S = S} c text in
      let t = try_update_at_most f (getset-weight c text) in
      let m = (try_update s.contents key (λ v. some (f v))).0 in
      ground (arith, t, total-insert m key (string_value text))

  pub setnx-IsCovered : (c : Clock) (text : Bytes) → IsCovered s → IsCovered (setnx c s key text).0
  unfolding setnx
  setnx-IsCovered c text h =
      let f = setnx_entry {Z = Z} {S = S} c text in
      let t = try_update_at_most f (setnx-weight c text) in
      let m = (try_update s.contents key (λ v. some (f v))).0 in
      ground (arith, t, total-insert_if_absent m key (string_value text))

  recounted_at :
      (c : Clock) (m : CustomMap (StoreValue Z S)) (expires_ms : ℕ) (o : Option (StoreValue Z S))
      → s.ttl_count + 1 < 2 ^ 64
      → IsCovered s
      → let f = getex_entry c expires_ms in
        total m.entries + weight o
          ≡ ttl_keys s + weight (elim o [ none ↦ none | some v ↦ some (f v).0 ])
        → IsCovered (recounted s m (elim o [ none ↦ none | some v ↦ some (f v).1 ])).0
  unfolding getex_entry add_ttl sub_ttl recounted
  recounted_at c m expires_ms none b h e = h
  recounted_at c m expires_ms (some v) b h e = ground arith

  pub getex_ms-IsCovered :
      (c : Clock) (expires_ms : ℕ)
      → s.ttl_count + 1 < 2 ^ 64
      → IsCovered s
      → IsCovered (getex_ms c s key expires_ms).0
  unfolding getex_ms
  getex_ms-IsCovered c expires_ms b h =
      let f = getex_entry {Z = Z} {S = S} c expires_ms in
      let m = (update_with s.contents key f).0 in
      rw (update_with_result s.contents key key f) (
        recounted_at c m expires_ms (get_ref s.contents key) b h
          (total-update_with s.contents key f))

  added-weight :
      (delta n : ℤ) (v : StoreValue Z S) → weight (some (added delta v n).0) ≤ weight (some v)
  unfolding added
  added-weight delta n v = ground arith

  int_entry-weight :
      (delta : ℤ) (v : StoreValue Z S) → weight (some (int_entry delta v).0) ≤ weight (some v)
  unfolding int_entry
  int_entry-weight delta v = grind (arith, added-weight delta)

  int_entry_locked-weight :
      (delta : ℤ) (v : StoreValue Z S)
      → weight (some (int_entry_locked delta v).0) ≤ weight (some v)
  unfolding int_entry_locked
  int_entry_locked-weight delta v = grind (arith, added-weight delta)

module _ {Z S : Type 0} (s : Store Z S) (key : Bytes) where
  pub int_op-IsCovered : (delta : ℤ) → IsCovered s → IsCovered (int_op s key delta).0
  unfolding int_op
  int_op-IsCovered delta h =
      let m = (update_with s.contents key (int_entry delta)).0 in
      let t = update_with_at_most s key (int_entry delta) (int_entry-weight s key delta) in
      let s' : Store Z S = record s { contents = m } in
      let g = int_entry_locked-weight s key delta in
      let m' = (update_with m key (int_entry_locked delta)).0 in
      let u : total m'.entries ≤ total m.entries =
        update_with_at_most s' key (int_entry_locked delta) g in
      ground (arith, t, u, total-insert m' key (string_value (signed delta)))
