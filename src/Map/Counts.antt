-- ===== src/Map/Counts.antt =====
-- `key_count` is the number of occupied entries, and the two bounded writes keep it within `max_keys`.
use flash_db.Base.{◌≤◌, ◌≡◌, ◌↔◌, inl, inr, none, some, Bytes, arith}
use flash_db.Map.{
  CustomMap, full, get_ref, contains_key, insert, set, try_insert, try_set, remove, remove_no_clone,
  update, update_with, insert_if_absent,
}
use flash_db.Map.Find.{find-cases, occupancy, occupancy-write, occupancy-append}
use flash_db.Map.Laws.{set-insert, remove_no_clone-remove, update-update_with}

abbrev pub IsCounted : {V : Type 0} → CustomMap V → Type 0
IsCounted m = m.key_count ≡ occupancy m.entries

module _ {V : Type 0} (m : CustomMap V) (k : Bytes) (h : IsCounted m) where
  insert-IsCounted : (v : V) → IsCounted (insert m k v).0
  unfolding insert
  insert-IsCounted v = elim (find-cases k m.entries) [
    | inl e ↦ ground (arith, occupancy-append k (some v) m.entries)
    | inr (inl e) ↦ ground (arith, occupancy-write k (some v) m.entries none e)
    | inr (inr (old, e)) ↦ ground (arith, occupancy-write k (some v) m.entries (some old) e)
  ]

  insert_if_absent-IsCounted : (v : V) → IsCounted (insert_if_absent m k v).0
  unfolding insert_if_absent
  insert_if_absent-IsCounted v = elim (find-cases k m.entries) [
    | inl e ↦ ground (arith, occupancy-append k (some v) m.entries)
    | inr (inl e) ↦ ground (arith, occupancy-write k (some v) m.entries none e)
    | inr (inr (old, e)) ↦ ground arith
  ]

  remove-IsCounted : IsCounted (remove m k).0
  unfolding remove
  remove-IsCounted = elim (find-cases k m.entries) [
    | inl e ↦ ground arith
    | inr (inl e) ↦ ground arith
    | inr (inr (old, e)) ↦ ground (arith, occupancy-write k none m.entries (some old) e)
  ]

  update_with-IsCounted : {R : Type 0} (f : V → V × R) → IsCounted (update_with m k f).0
  unfolding update_with
  update_with-IsCounted f = elim (find-cases k m.entries) [
    | inl e ↦ ground arith
    | inr (inl e) ↦ ground arith
    | inr (inr (old, e)) ↦ ground (arith, occupancy-write k (some (f old).0) m.entries (some old) e)
  ]

-- Every write of the map (`insert`, `set`, `insert_if_absent`, `remove`, `remove_no_clone`,
-- `update_with`, `update`) keeps `key_count` equal to the number of occupied entries.
pub writes-IsCounted :
    {V R : Type 0} (m : CustomMap V) (k : Bytes) (v : V) (f : V → V × R)
    → IsCounted m
    → IsCounted (insert m k v).0
      × IsCounted (set m k v).0
      × IsCounted (insert_if_absent m k v).0
      × IsCounted (remove m k).0
      × IsCounted (remove_no_clone m k).0
      × IsCounted (update_with m k f).0
      × IsCounted (update m k f).0
writes-IsCounted m k v f h = (
  insert-IsCounted m k h v,
  rw set-insert (insert-IsCounted m k h v),
  insert_if_absent-IsCounted m k h v,
  remove-IsCounted m k h,
  rw remove_no_clone-remove (remove-IsCounted m k h),
  update_with-IsCounted m k h f,
  rw update-update_with (update_with-IsCounted m k h f),
)

-- `try_insert` and `try_set` keep `key_count` within `max_keys`, and refuse a value exactly if the
-- map is full and its key is absent; a refusal changes nothing.
pub try_insert_bounds :
    {V : Type 0} (m : CustomMap V) (k : Bytes) (v : V)
    → m.key_count ≤ m.max_keys
    → ((try_insert m k v).0.key_count ≤ m.max_keys)
      × ((try_set m k v) ≡ (try_insert m k v))
      × (((try_insert m k v).1 ≡ full) ↔ ((m.max_keys ≤ m.key_count) × (get_ref m k ≡ none)))
      × ((try_insert m k v).1 ≡ full → (try_insert m k v).0 ≡ m)
unfolding try_insert try_set insert set contains_key get_ref
try_insert_bounds m k v h = elim (find-cases k m.entries) [
  | inl e ↦ ground arith
  | inr (inl e) ↦ ground arith
  | inr (inr (old, e)) ↦ ground arith
]
