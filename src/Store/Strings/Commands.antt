-- ===== src/Store/Strings/Commands.antt =====
-- APPEND and SETNX of src/storage/string.rs, and what GET and STRLEN find after them.
use flash_db.Base.{
  ℕ, ◌≡◌, refl, sym, ap, ◌∙◌, inl, inr, Bool, true, Option, none, some, Bytes, ◌++◌, ◌&&◌, length,
  ◌=ₛ◌, eq_iff, eq_refl, if◌then◌else◌, Bool-cases, arith,
}
use flash_db.Map.{get_ref, insert_if_absent, update_with, with_entry}
use flash_db.Map.Laws.{
  replaced, changed, get_ref-insert, get_ref-insert_if_absent, insert_if_absent_result,
  get_ref-update_with, update_with_result, try_update-update_with,
}
use flash_db.Value.{StoreValue, Clock, is_expired, as_string}
use flash_db.Store.{Store, Result, ok, err, wrong_type}
use flash_db.Store.Strings.{
  get, read_entry, append, append_entry, setnx, setnx_entry, strlen, string_value,
}

module _ {Z S : Type 0} (c : Clock) where
  -- The string that a client sees in what the map holds: none in an expired value.
  unfoldable pub seen : Option (StoreValue Z S) → Option Bytes
  seen none = none
  seen (some v) = if is_expired c v then none else as_string v.value

  -- What GET of the key returns.
  pub get_result : (s : Store Z S) (j : Bytes) → (get c s j).1 ≡ seen (get_ref s.contents j)
  unfolding get read_entry seen with_entry
  get_result s j = ground arith

  -- What APPEND makes of what the key holds, and its result.
  unfoldable pub appended : Bytes → Option (StoreValue Z S) → Option (StoreValue Z S) × Result ℕ
  appended suffix none = (some (string_value suffix), ok (length suffix))
  appended suffix (some v) = let r = append_entry c suffix v in (some r.0, r.1)

  -- What SETNX makes of what the key holds, and whether it sets the key.
  unfoldable pub set_if_vacant : Bytes → Option (StoreValue Z S) → Option (StoreValue Z S) × Bool
  set_if_vacant text none = (some (string_value text), true)
  set_if_vacant text (some v) = let r = setnx_entry c text v in (some r.0, r.1)

module _ {Z S : Type 0} (c : Clock) (s : Store Z S) (key j : Bytes) where
  appended_at :
      (suffix : Bytes) (o : Option (StoreValue Z S))
      → get_ref s.contents key ≡ o
      → let done = append c s key suffix in
        let r = appended c suffix o in
        (get_ref done.0.contents j ≡ replaced s.contents key r.0 j) × (done.1 ≡ r.1)
  unfolding append appended
  appended_at suffix none e =
      let f = append_entry {Z = Z} {S = S} c suffix in
      let m = (update_with s.contents key f).0 in
      let k = get_ref-update_with s.contents key j f in
      let r = update_with_result s.contents key j f in
      let i = get_ref-insert m key j (string_value suffix) in
      (ground (arith, r, e, i, k), rw (append, r, e) refl)
  appended_at suffix (some v) e =
      let f = append_entry {Z = Z} {S = S} c suffix in
      let k = get_ref-update_with s.contents key j f in
      let r = update_with_result s.contents key j f in
      (rw (append, r, e, k, changed, e) refl, rw (append, r, e) refl)

  set_at :
      (text : Bytes) (o : Option (StoreValue Z S))
      → get_ref s.contents key ≡ o
      → let done = setnx c s key text in
        let r = set_if_vacant c text o in
        (get_ref done.0.contents j ≡ replaced s.contents key r.0 j) × (done.1 ≡ r.1)
  unfolding setnx set_if_vacant
  set_at text none e =
      let f = setnx_entry {Z = Z} {S = S} c text in
      let m = (update_with s.contents key f).0 in
      let u = try_update-update_with s.contents key j f in
      let k = get_ref-update_with s.contents key j f in
      let q = get_ref-update_with s.contents key key f in
      let r = update_with_result s.contents key j f in
      let b = insert_if_absent_result m key key (string_value text) in
      let i = get_ref-insert_if_absent m key j (string_value text) in
      let fresh : (insert_if_absent m key (string_value text)).1 ≡ true =
        rw (b, q, eq_refl key, changed, e) refl in
      (rw (setnx, u, r, e, u, i, fresh) (ground (arith, k)), rw (setnx, u, r, e, u, fresh) refl)
  set_at text (some v) e =
      let f = setnx_entry {Z = Z} {S = S} c text in
      let u = try_update-update_with s.contents key j f in
      let k = get_ref-update_with s.contents key j f in
      let r = update_with_result s.contents key j f in
      (rw (setnx, u, r, e, u, k, changed, e) refl, rw (setnx, u, r, e) refl)

module _ {Z S : Type 0} (c : Clock) where
  -- The string after APPEND, in terms of what the map holds before.
  unfoldable pub grown : Bytes → Option (StoreValue Z S) → Option Bytes
  grown suffix none = some suffix
  grown suffix (some v) =
      if is_expired c v
      then some suffix
      else elim (as_string v.value) [ none ↦ none | some text ↦ some (text ++ suffix) ]

  unfoldable pub length_of : Option (StoreValue Z S) → Result ℕ
  length_of none = ok 0
  length_of (some v) =
      if is_expired c v
      then ok 0
      else elim (as_string v.value) [ none ↦ err wrong_type | some text ↦ ok (length text) ]

  strlen-length_of : (s : Store Z S) (j : Bytes) → strlen c s j ≡ length_of (get_ref s.contents j)
  unfolding strlen length_of
  strlen-length_of s j = ground arith

  seen-appended :
      (suffix : Bytes) (o : Option (StoreValue Z S))
      → (seen c (appended c suffix o).0 ≡ grown suffix o)
        × (length_of (appended c suffix o).0 ≡ (appended c suffix o).1)
  unfolding seen appended grown length_of append_entry as_string is_expired
  seen-appended suffix none = (refl, refl)
  seen-appended suffix (some v) = (ground arith, ground arith)

  unfoldable pub is_vacant : Option (StoreValue Z S) → Bool
  is_vacant none = true
  is_vacant (some v) = is_expired c v

  seen-set_if_vacant :
      (text : Bytes) (o : Option (StoreValue Z S))
      → (seen c (set_if_vacant c text o).0 ≡ (if is_vacant o then some text else seen c o))
        × ((set_if_vacant c text o).1 ≡ is_vacant o)
  unfolding seen set_if_vacant is_vacant setnx_entry as_string is_expired
  seen-set_if_vacant text none = (refl, refl)
  seen-set_if_vacant text (some v) = (ground arith, ground arith)

module _ {Z S : Type 0} (c : Clock) (s : Store Z S) (key j : Bytes) where
  -- After APPEND, GET of the key finds the suffix after the string that was there, the suffix alone
  -- if the key is missing or has expired, and nothing if the value is no string; GET of every other
  -- key finds what it found before; and the result, an error for a value that is no string, is what
  -- STRLEN then returns.
  pub append_lem :
      (suffix : Bytes)
      → let done = append c s key suffix in
        ((get c done.0 j).1
          ≡ (if key =ₛ j then grown c suffix (get_ref s.contents key) else (get c s j).1))
        × (strlen c done.0 key ≡ done.1)
  append_lem suffix =
      let o = get_ref s.contents key in
      let a = appended_at c s key j suffix o refl in
      let b = appended_at c s key key suffix o refl in
      let g = get_result c s j in
      let h = get_result c (append c s key suffix).0 j in
      let n = seen-appended c suffix o in
      let l = strlen-length_of c (append c s key suffix).0 key in
      (
        elim (Bool-cases (key =ₛ j)) [
          | inl x ↦ rw (h, a.0, x) n.0
          | inr x ↦ rw (h, a.0, x, g) refl
        ],
        rw (l, b.0, eq_refl key, b.1) n.1,
      )

  -- SETNX sets the key exactly if it is missing or has expired, and says so: GET of the key then
  -- finds the new string, and otherwise, as at every other key, what it found before.
  pub setnx_lem :
      (text : Bytes)
      → let done = setnx c s key text in
        (done.1 ≡ is_vacant c (get_ref s.contents key))
        × ((get c done.0 j).1 ≡ (if done.1 && (key =ₛ j) then some text else (get c s j).1))
  setnx_lem text =
      let o = get_ref s.contents key in
      let a = set_at c s key j text o refl in
      let g = get_result c s j in
      let h = get_result c (setnx c s key text).0 j in
      let n = seen-set_if_vacant c text o in
      (
        a.1 ∙ n.1,
        elim (Bool-cases (key =ₛ j)) [
          | inl x ↦
              rw (h, a.0, x, n.0, a.1, n.1, g, ap (get_ref s.contents) (sym ((eq_iff key j).0 x)))
                (elim (Bool-cases (is_vacant c o)) [ inl y ↦ rw y refl | inr y ↦ rw y refl ])
          | inr x ↦
              rw (h, a.0, x, g, a.1, n.1)
                (elim (Bool-cases (is_vacant c o)) [ inl y ↦ rw y refl | inr y ↦ rw y refl ])
        ],
      )
