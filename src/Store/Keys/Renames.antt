-- ===== src/Store/Keys/Renames.antt =====
-- RENAME and RENAMENX of src/storage/keys.rs between two keys, as functions of the keys' values.
use flash_db.Base.{
  ◌≡◌, refl, sym, ap, ◌∙◌, inl, inr, Bool, true, false, Option, none, some, Bytes, ◌=ₛ◌, eq_iff,
  if◌then◌else◌, Bool-cases,
}
use flash_db.Map.{CustomMap, get_ref, insert_if_absent, remove}
use flash_db.Map.Laws.{
  get_ref-insert, get_ref-insert_if_absent, insert_if_absent_result, get_ref-remove, remove_result,
}
use flash_db.Value.{StoreValue, Clock, is_expired}
use flash_db.Store.{Store}
use flash_db.Store.Keys.{rename, renamed, renamenx, renamed_nx}

module _ {Z S : Type 0} (c : Clock) (s : Store Z S) (old_key new_key j : Bytes) where
  -- What `j` holds once the value `o` of the old key is there no more, nor under the new key yet.
  abbrev vacated : Option (StoreValue Z S)
  vacated = if old_key =ₛ j then none else get_ref s.contents j

  -- What `j` holds after RENAME of a key that held `o`, and whether RENAME succeeds.
  unfoldable pub after_rename : Option (StoreValue Z S) → Option (StoreValue Z S) × Bool
  after_rename none = (vacated, false)
  after_rename (some v) =
      if is_expired c v then (vacated, false) else (if new_key =ₛ j then some v else vacated, true)

  renamed_at :
      (m : CustomMap (StoreValue Z S)) (o : Option (StoreValue Z S))
      → get_ref m j ≡ vacated
      → let done = renamed c (record s { contents = m }) new_key o in
        ◌≡◌ {A = Option (StoreValue Z S) × Bool}
          (get_ref done.0.contents j, done.1)
          (after_rename o)
  unfolding renamed after_rename
  renamed_at m none h = rw h refl
  renamed_at m (some v) h = elim (Bool-cases (is_expired c v)) [
    | inl x ↦ rw (x, h) refl
    | inr x ↦ rw (x, get_ref-insert m new_key j v, h) refl
  ]

  -- RENAME between two keys: a live value moves to the new key, over what was there; an expired one
  -- is only removed, and RENAME fails as it does for a missing key.
  pub rename-after_rename :
      (old_key =ₛ new_key) ≡ false
      → let done = rename c s old_key new_key in
        ◌≡◌ {A = Option (StoreValue Z S) × Bool}
          (get_ref done.0.contents j, done.1)
          (after_rename (get_ref s.contents old_key))
  unfolding rename
  rename-after_rename h =
      rw (h, remove_result s.contents old_key j)
        (renamed_at (remove s.contents old_key).0 (get_ref s.contents old_key)
          (get_ref-remove s.contents old_key j))

  -- What `j` holds after RENAMENX where the new key holds `taken`.
  unfoldable pub after_renamenx :
      Option (StoreValue Z S) → Option (StoreValue Z S) → Option (StoreValue Z S) × Bool
  after_renamenx none taken = (vacated, false)
  after_renamenx (some v) none = after_rename (some v)
  after_renamenx (some v) (some w) =
      if is_expired c v then (vacated, false) else (get_ref s.contents j, false)

  restored :
      (v : StoreValue Z S)
      → get_ref s.contents old_key ≡ some v
      → (if old_key =ₛ j then some v else vacated) ≡ get_ref s.contents j
  restored v n = elim (Bool-cases (old_key =ₛ j)) [
    | inl x ↦ rw x (sym n ∙ ap (get_ref s.contents) ((eq_iff old_key j).0 x))
    | inr x ↦ rw x refl
  ]

  renamed_nx_at :
      (m : CustomMap (StoreValue Z S)) (o taken : Option (StoreValue Z S))
      → get_ref s.contents old_key ≡ o
      → get_ref m new_key ≡ taken
      → get_ref m j ≡ vacated
      → let done = renamed_nx c (record s { contents = m }) old_key new_key o in
        ◌≡◌ {A = Option (StoreValue Z S) × Bool}
          (get_ref done.0.contents j, done.1)
          (after_renamenx o taken)
  unfolding renamed_nx after_renamenx after_rename
  renamed_nx_at m none taken n t h = rw h refl
  renamed_nx_at m (some v) none n t h = elim (Bool-cases (is_expired c v)) [
    | inl x ↦ rw (x, h) refl
    | inr x ↦
        let i = get_ref-insert_if_absent m new_key j v in
        let r = insert_if_absent_result m new_key j v in rw (x, r, t) (rw (i, r, t, h) refl)
  ]
  renamed_nx_at m (some v) (some w) n t h = elim (Bool-cases (is_expired c v)) [
    | inl x ↦ rw (x, h) refl
    | inr x ↦
        let m' = (insert_if_absent m new_key v).0 in
        let i = get_ref-insert_if_absent m new_key j v in
        let r = insert_if_absent_result m new_key j v in
        let k = get_ref-insert m' old_key j v in rw (x, r, t, k, i, r, t, h, restored v n) refl
  ]

  -- RENAMENX between two keys: a live value moves to the new key if nothing is there; if something
  -- is, RENAMENX fails and every key holds what it held; an expired value is only removed.
  pub renamenx-after_renamenx :
      (old_key =ₛ new_key) ≡ false
      → let done = renamenx c s old_key new_key in
        ◌≡◌ {A = Option (StoreValue Z S) × Bool}
          (get_ref done.0.contents j, done.1)
          (after_renamenx (get_ref s.contents old_key) (get_ref s.contents new_key))
  unfolding renamenx
  renamenx-after_renamenx h =
      let k = get_ref-remove s.contents old_key new_key in
      rw (h, remove_result s.contents old_key j)
        (renamed_nx_at (remove s.contents old_key).0 (get_ref s.contents old_key)
          (get_ref s.contents new_key) refl (rw (k, h) refl) (get_ref-remove s.contents old_key j))
