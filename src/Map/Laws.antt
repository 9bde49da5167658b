-- ===== src/Map/Laws.antt =====
-- What a lookup finds after each operation: the map is a function from keys to values.
use flash_db.Base.{
  ◌≡◌, refl, inl, inr, true, false, Option, none, some, Bytes, ◌=ₛ◌, eq_iff, if◌then◌else◌, arith,
}
use flash_db.Map.{
  CustomMap, get_ref, insert, set, remove, remove_no_clone, update, update_with, insert_if_absent,
  try_update,
}
use flash_db.Map.Find.{find-cases, find-write, find-append}

-- `m` with the value of `k` replaced by `c`, as a function of the key.
abbrev pub replaced : {V : Type 0} → CustomMap V → Bytes → Option V → Bytes → Option V
replaced m k c j = if k =ₛ j then c else get_ref m j

module _ {V : Type 0} (m : CustomMap V) (k j : Bytes) where
  -- After `insert` a lookup finds the value at its key, and what it found before at every other.
  pub get_ref-insert : (v : V) → get_ref (insert m k v).0 j ≡ replaced m k (some v) j
  unfolding get_ref insert
  get_ref-insert v = elim (find-cases k m.entries) [
    | inl e ↦ ground (arith, find-append k j (some v) m.entries e)
    | inr (inl e) ↦ ground (arith, find-write k j (some v) m.entries none e)
    | inr (inr (old, e)) ↦ ground (arith, find-write k j (some v) m.entries (some old) e)
  ]

  -- `set` finds, writes and counts as `insert` does.
  pub set-insert : (v : V) → set m k v ≡ insert m k v
  unfolding set insert
  set-insert v = ground arith

  -- After `insert_if_absent` a lookup finds the value at its key if it was inserted, and what it
  -- found before otherwise and at every other key.
  pub get_ref-insert_if_absent :
      (v : V)
      → get_ref (insert_if_absent m k v).0 j
        ≡ (if (insert_if_absent m k v).1 then replaced m k (some v) j else get_ref m j)
  unfolding get_ref insert_if_absent
  get_ref-insert_if_absent v = elim (find-cases k m.entries) [
    | inl e ↦ ground (arith, find-append k j (some v) m.entries e)
    | inr (inl e) ↦ ground (arith, find-write k j (some v) m.entries none e)
    | inr (inr (old, e)) ↦ ground (arith, find-write k j (some v) m.entries (some old) e)
  ]

  -- After `remove` a lookup finds nothing at its key, and what it found before at every other.
  pub get_ref-remove : get_ref (remove m k).0 j ≡ replaced m k none j
  unfolding get_ref remove
  get_ref-remove = elim (find-cases k m.entries) [
    | inl e ↦ ground (arith, eq_iff k j)
    | inr (inl e) ↦ ground (arith, eq_iff k j)
    | inr (inr (old, e)) ↦ ground (arith, find-write k j none m.entries (some old) e)
  ]

  pub remove_result : (remove m k).1 ≡ get_ref m k
  unfolding get_ref remove
  remove_result = elim (find-cases k m.entries) [
    | inl e ↦ ground arith
    | inr (inl e) ↦ ground arith
    | inr (inr (old, e)) ↦ ground (arith, e)
  ]

  pub insert_if_absent_result :
      (v : V) → (insert_if_absent m k v).1 ≡ (elim (get_ref m k) [ none ↦ true | some old ↦ false ])
  unfolding get_ref insert_if_absent
  insert_if_absent_result v = elim (find-cases k m.entries) [
    | inl e ↦ ground arith
    | inr (inl e) ↦ ground arith
    | inr (inr (old, e)) ↦ ground (arith, e)
  ]

  pub remove_no_clone-remove : (remove_no_clone m k).0 ≡ (remove m k).0
  unfolding remove_no_clone remove
  remove_no_clone-remove = ground arith

module _ {V R : Type 0} (m : CustomMap V) (k j : Bytes) (f : V → V × R) where
  -- The value that `update_with` leaves at its key.
  abbrev pub changed : Option V
  changed = elim (get_ref m k) [ none ↦ none | some v ↦ some (f v).0 ]

  -- After `update_with` a lookup finds what the closure left at its key, if the key was there, and
  -- what it found before at every other.
  pub get_ref-update_with : get_ref (update_with m k f).0 j ≡ replaced m k changed j
  unfolding get_ref update_with
  get_ref-update_with = elim (find-cases k m.entries) [
    | inl e ↦ ground (arith, eq_iff k j)
    | inr (inl e) ↦ ground (arith, eq_iff k j)
    | inr (inr (old, e)) ↦ ground (arith, find-write k j (some (f old).0) m.entries (some old) e)
  ]

  -- The closure runs exactly if the key is occupied.
  pub update_with_result :
      (update_with m k f).1 ≡ (elim (get_ref m k) [ none ↦ none | some v ↦ some (f v).1 ])
  unfolding get_ref update_with
  update_with_result = ground arith

  -- Where the closure of `try_update` always gives a value, it is `update_with`.
  pub try_update-update_with : try_update m k (λ v. some (f v)) ≡ update_with m k f
  unfolding try_update update_with
  try_update-update_with = refl

  pub update-update_with : update m k f ≡ update_with m k f
  unfolding update update_with
  update-update_with = refl

-- After `insert` and `set` a lookup finds the value at its key, after `insert_if_absent` it does if
-- the key was absent, after `remove` and `remove_no_clone` it finds nothing there, and after
-- `update_with` what the closure left of a value that was there; at every other key it finds what
-- it found before.
pub get_ref_after :
    {V R : Type 0} (m : CustomMap V) (k j : Bytes) (v : V) (f : V → V × R)
    → (get_ref (insert m k v).0 j ≡ replaced m k (some v) j)
      × (get_ref (set m k v).0 j ≡ replaced m k (some v) j)
      × (get_ref (insert_if_absent m k v).0 j
          ≡ (if (insert_if_absent m k v).1 then replaced m k (some v) j else get_ref m j))
      × (get_ref (remove m k).0 j ≡ replaced m k none j)
      × (get_ref (remove_no_clone m k).0 j ≡ replaced m k none j)
      × (get_ref (update_with m k f).0 j ≡ replaced m k (changed m k j f) j)
get_ref_after m k j v f = (
  get_ref-insert m k j v,
  rw set-insert (get_ref-insert m k j v),
  get_ref-insert_if_absent m k j v,
  get_ref-remove m k j,
  rw remove_no_clone-remove (get_ref-remove m k j),
  get_ref-update_with m k j f,
)
