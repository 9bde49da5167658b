-- ===== src/Store/Ttl/Steps.antt =====
-- The commands of src/storage/keys.rs and src/storage/string.rs against the count of keys with an expiry.
use flash_db.Base.{
  ℕ, ◌+◌, ◌≤◌, ◌<◌, ◌^◌, ◌≡◌, inl, inr, false, Option, none, some, Bytes, ◌=ₛ◌, ◌==◌, Bool-cases,
  arith,
}
use flash_db.Map.{CustomMap, get_ref, insert_if_absent, remove, update_with}
use flash_db.Map.Laws.{insert_if_absent_result, remove_no_clone-remove, update_with_result}
use flash_db.Value.{StoreValue, Clock, is_expired}
use flash_db.Store.{Store, add_ttl, sub_ttl, client_connected, client_disconnected}
use flash_db.Store.Keys.{
  del, expire_ms, expire_entry, persist, persist_entry, accounted, unwrap_or, rename, renamed,
  renamenx, renamed_nx, copy, copied,
}
use flash_db.Store.Ttl.{weight, total, ttl_keys, IsCovered}
use flash_db.Store.Ttl.Counting.{
  total-insert, total-insert_if_absent, total-remove, total-update_with,
}
use flash_db.Base.Int.{ℤ}
use flash_db.Store.Strings.Counters.{int_op}
use flash_db.Store.Strings.{set, set_string, get, getdel, getset, getex_ms, setnx, append}
use flash_db.Store.Strings.Expiries.{
  set-IsCovered, set_string-IsCovered, get-IsCovered, getdel-IsCovered, getset-IsCovered,
  getex_ms-IsCovered, setnx-IsCovered, append-IsCovered, int_op-IsCovered,
}

module _ {Z S : Type 0} (c : Clock) (s : Store Z S) where
  del-IsCovered : (key : Bytes) → IsCovered s → IsCovered (del s key).0
  unfolding del
  del-IsCovered key h =
      rw (remove_no_clone-remove s.contents key key) (omega (arith, total-remove s.contents key))

  -- The two commands that change the expiry of the value that the key holds, if it holds one.
  expired_at :
      (m : CustomMap (StoreValue Z S)) (abs_ms : ℕ) (o : Option (StoreValue Z S))
      → s.ttl_count + 1 < 2 ^ 64
      → IsCovered s
      → let f = expire_entry c abs_ms in
        total m.entries + weight o
          ≡ ttl_keys s + weight (elim o [ none ↦ none | some v ↦ some (f v).0 ])
        → IsCovered
            (accounted add_ttl
              (record s { contents = m })
              (unwrap_or false (elim o [ none ↦ none | some v ↦ some (f v).1 ]))).0
  unfolding accounted expire_entry add_ttl
  expired_at m abs_ms none b h e = omega arith
  expired_at m abs_ms (some v) b h e = ground arith

  persisted_at :
      (m : CustomMap (StoreValue Z S)) (o : Option (StoreValue Z S))
      → IsCovered s
      → let f = persist_entry c in
        total m.entries + weight o
          ≡ ttl_keys s + weight (elim o [ none ↦ none | some v ↦ some (f v).0 ])
        → IsCovered
            (accounted sub_ttl
              (record s { contents = m })
              (unwrap_or false (elim o [ none ↦ none | some v ↦ some (f v).1 ]))).0
  unfolding accounted persist_entry sub_ttl
  persisted_at m none h e = omega arith
  persisted_at m (some v) h e = ground arith

  expire_ms-IsCovered :
      (key : Bytes) (abs_ms : ℕ)
      → s.ttl_count + 1 < 2 ^ 64
      → IsCovered s
      → IsCovered (expire_ms c s key abs_ms).0
  unfolding expire_ms
  expire_ms-IsCovered key abs_ms b h =
      let f = expire_entry {Z = Z} {S = S} c abs_ms in
      let m = (update_with s.contents key f).0 in
      rw (update_with_result s.contents key key f)
        (expired_at m abs_ms (get_ref s.contents key) b h (total-update_with s.contents key f))

  persist-IsCovered : (key : Bytes) → IsCovered s → IsCovered (persist c s key).0
  unfolding persist
  persist-IsCovered key h =
      let f = persist_entry {Z = Z} {S = S} c in
      let m = (update_with s.contents key f).0 in
      rw (update_with_result s.contents key key f)
        (persisted_at m (get_ref s.contents key) h (total-update_with s.contents key f))

  renamed-IsCovered :
      (key : Bytes) (o : Option (StoreValue Z S))
      → ttl_keys s + weight o ≤ s.ttl_count
      → IsCovered (renamed c s key o).0
  unfolding renamed
  renamed-IsCovered key none h = omega arith
  renamed-IsCovered key (some v) h = ground (arith, total-insert s.contents key v)

  renamed_nx-IsCovered :
      (old_key new_key : Bytes) (o : Option (StoreValue Z S))
      → ttl_keys s + weight o ≤ s.ttl_count
      → IsCovered (renamed_nx c s old_key new_key o).0
  unfolding renamed_nx
  renamed_nx-IsCovered old_key new_key none h = omega arith
  renamed_nx-IsCovered old_key new_key (some v) h =
      let m = (insert_if_absent s.contents new_key v).0 in
      ground (arith, total-insert_if_absent s.contents new_key v, total-insert m old_key v)

module _ {Z S : Type 0} (c : Clock) (s : Store Z S) (old_key new_key : Bytes) where
  rename-IsCovered : IsCovered s → IsCovered (rename c s old_key new_key).0
  unfolding rename
  rename-IsCovered h =
      let r = remove s.contents old_key in
      let s' : Store Z S = record s { contents = r.0 } in
      let t : ttl_keys s' + weight r.1 ≤ s'.ttl_count =
        omega (arith, total-remove s.contents old_key) in
      elim (Bool-cases (old_key =ₛ new_key)) [
        | inl x ↦ rw x h
        | inr x ↦ rw x (renamed-IsCovered c s' new_key r.1 t)
      ]

  renamenx-IsCovered : IsCovered s → IsCovered (renamenx c s old_key new_key).0
  unfolding renamenx
  renamenx-IsCovered h =
      let r = remove s.contents old_key in
      let s' : Store Z S = record s { contents = r.0 } in
      let t : ttl_keys s' + weight r.1 ≤ s'.ttl_count =
        omega (arith, total-remove s.contents old_key) in
      elim (Bool-cases (old_key =ₛ new_key)) [
        | inl x ↦ rw x h
        | inr x ↦ rw x (renamed_nx-IsCovered c s' old_key new_key r.1 t)
      ]

-- A store and what one of the commands on keys and strings makes of it, at any time; those that may
-- add an expiry with room in the count.
pub data Step {Z S : Type 0} : Store Z S → Store Z S → Type 0 where
  deletes : (s : Store Z S) (key : Bytes) → Step s (del s key).0
  expires :
      (c : Clock) (s : Store Z S) (key : Bytes) (abs_ms : ℕ)
      → s.ttl_count + 1 < 2 ^ 64
      → Step s (expire_ms c s key abs_ms).0
  persists : (c : Clock) (s : Store Z S) (key : Bytes) → Step s (persist c s key).0
  renames :
      (c : Clock) (s : Store Z S) (old_key new_key : Bytes) → Step s (rename c s old_key new_key).0
  renames_nx :
      (c : Clock) (s : Store Z S) (old_key new_key : Bytes)
      → Step s (renamenx c s old_key new_key).0
  sets :
      (s : Store Z S) (key : Bytes) (v : StoreValue Z S)
      → s.ttl_count + 1 < 2 ^ 64
      → Step s (set s key v)
  sets_string :
      (s : Store Z S) (key text : Bytes) (expires_ms : ℕ)
      → s.ttl_count + 1 < 2 ^ 64
      → Step s (set_string s key text expires_ms)
  gets : (c : Clock) (s : Store Z S) (key : Bytes) → Step s (get c s key).0
  gets_del : (c : Clock) (s : Store Z S) (key : Bytes) → Step s (getdel c s key).0
  gets_set : (c : Clock) (s : Store Z S) (key text : Bytes) → Step s (getset c s key text).0
  gets_ex :
      (c : Clock) (s : Store Z S) (key : Bytes) (expires_ms : ℕ)
      → s.ttl_count + 1 < 2 ^ 64
      → Step s (getex_ms c s key expires_ms).0
  sets_nx : (c : Clock) (s : Store Z S) (key text : Bytes) → Step s (setnx c s key text).0
  appends : (c : Clock) (s : Store Z S) (key suffix : Bytes) → Step s (append c s key suffix).0
  adds : (s : Store Z S) (key : Bytes) (delta : ℤ) → Step s (int_op s key delta).0
  connects : (s : Store Z S) → Step s (client_connected s)
  disconnects : (s : Store Z S) → Step s (client_disconnected s)

pub data Steps {Z S : Type 0} : Store Z S → Store Z S → Type 0 where
  done : (s : Store Z S) → Steps s s
  more : (s t u : Store Z S) → Step s t → Steps t u → Steps s u

Step-IsCovered : {Z S : Type 0} {s t : Store Z S} → Step s t → IsCovered s → IsCovered t
unfolding client_connected client_disconnected
Step-IsCovered (deletes s key) h = del-IsCovered (record { unix_ms_cache = 0; now_ms = 0 }) s key h
Step-IsCovered (expires c s key abs_ms b) h = expire_ms-IsCovered c s key abs_ms b h
Step-IsCovered (persists c s key) h = persist-IsCovered c s key h
Step-IsCovered (renames c s o n) h = rename-IsCovered c s o n h
Step-IsCovered (renames_nx c s o n) h = renamenx-IsCovered c s o n h
Step-IsCovered (sets s key v b) h = set-IsCovered s key v b h
Step-IsCovered (sets_string s key text e b) h = set_string-IsCovered s key text e b h
Step-IsCovered (gets c s key) h = get-IsCovered s key c h
Step-IsCovered (gets_del c s key) h = getdel-IsCovered s key c h
Step-IsCovered (gets_set c s key text) h = getset-IsCovered s key c text h
Step-IsCovered (gets_ex c s key e b) h = getex_ms-IsCovered s key c e b h
Step-IsCovered (sets_nx c s key text) h = setnx-IsCovered s key c text h
Step-IsCovered (appends c s key suffix) h = append-IsCovered s key c suffix h
Step-IsCovered (adds s key delta) h = int_op-IsCovered s key delta h
Step-IsCovered (connects s) h = h
Step-IsCovered (disconnects s) h = h

-- However DEL, EXPIRE, PERSIST, RENAME, RENAMENX, the writes of strings (`set`, `set_string`,
-- GETDEL, GETSET, GETEX, SETNX, APPEND, INCRBY), GET and the clients' coming and going follow each
-- other, those that may add an expiry (EXPIRE, `set`, `set_string`, GETEX) with room in the count,
-- the count of keys with an expiry never falls short of the keys that have one, if it does not at
-- first.
pub Steps-IsCovered : {Z S : Type 0} {s t : Store Z S} → Steps s t → IsCovered s → IsCovered t
Steps-IsCovered (done s) h = h
Steps-IsCovered (more s t u a rest) h = Steps-IsCovered rest (Step-IsCovered a h)

module _ {Z S : Type 0} (c : Clock) (s : Store Z S) where
  copied_uncounted :
      (dst : Bytes) (v : StoreValue Z S)
      → is_expired c v ≡ false
      → (v.expires_ms == 0) ≡ false
      → get_ref s.contents dst ≡ none
      → let done = (copied c s dst false (some v)).0 in
        (ttl_keys done ≡ ttl_keys s + 1) × (done.ttl_count ≡ s.ttl_count)
  unfolding copied
  copied_uncounted dst v h e n =
      let a = total-insert_if_absent s.contents dst v in
      let i = insert_if_absent_result s.contents dst dst v in (ground arith, ground arith)

  -- COPY of a key whose expiry has not passed to a missing key adds a key with an expiry to the map
  -- and nothing to the count of such keys.
  pub copy_uncounted :
      (src dst : Bytes) (v : StoreValue Z S)
      → get_ref s.contents src ≡ some v
      → is_expired c v ≡ false
      → (v.expires_ms == 0) ≡ false
      → get_ref s.contents dst ≡ none
      → let done = (copy c s src dst false).0 in
        (ttl_keys done ≡ ttl_keys s + 1) × (done.ttl_count ≡ s.ttl_count)
  unfolding copy
  copy_uncounted src dst v g h e n = rw g (copied_uncounted dst v h e n)
