-- ===== src/Store/Ttl/Counting.antt =====
-- How the writes of the map change the number of keys with an expiry.
use flash_db.Base.{
  ◌+◌, ◌≤◌, ◌≡◌, inl, inr, Option, none, some, List, [], ◌∷◌, ◌++◌, Bytes, if◌then◌else◌, arith,
}
use flash_db.Map.{
  CustomMap, Entry, find, write, get_ref, insert, insert_if_absent, remove, update_with,
}
use flash_db.Map.Find.{find-cases}
use flash_db.Value.{StoreValue}
use flash_db.Store.Ttl.{weight, total}

module _ {Z S : Type 0} where
  pub total-append :
      (es : List (Entry (StoreValue Z S))) (k : Bytes) (o : Option (StoreValue Z S))
      → total (es ++ (k, o) ∷ []) ≡ total es + weight o
  unfolding total
  total-append [] k o = omega arith
  total-append ((j, d) ∷ es) k o = omega (arith, total-append es k o)

  pub total-write :
      (k : Bytes) (o d : Option (StoreValue Z S)) (es : List (Entry (StoreValue Z S)))
      → find k es ≡ some d
      → total (write k o es) + weight d ≡ total es + weight o
  unfolding total find write
  total-write k o d [] h = cc
  total-write k o d ((j, e) ∷ es) h = ground (arith, total-write k o d es)

module _ {Z S : Type 0} (m : CustomMap (StoreValue Z S)) (k : Bytes) where
  pub total-insert :
      (v : StoreValue Z S) → total (insert m k v).0.entries ≤ total m.entries + weight (some v)
  unfolding insert
  total-insert v = elim (find-cases k m.entries) [
    | inl e ↦ ground (arith, total-append m.entries k (some v))
    | inr (inl e) ↦ ground (arith, total-write k (some v) none m.entries e)
    | inr (inr (old, e)) ↦ ground (arith, total-write k (some v) (some old) m.entries e)
  ]

  pub total-insert_if_absent :
      (v : StoreValue Z S)
      → total (insert_if_absent m k v).0.entries
        ≡ total m.entries + (if (insert_if_absent m k v).1 then weight (some v) else 0)
  unfolding insert_if_absent
  total-insert_if_absent v = elim (find-cases k m.entries) [
    | inl e ↦ ground (arith, total-append m.entries k (some v))
    | inr (inl e) ↦ ground (arith, total-write k (some v) none m.entries e)
    | inr (inr (old, e)) ↦ ground arith
  ]

  pub total-remove : total (remove m k).0.entries + weight (remove m k).1 ≡ total m.entries
  unfolding remove
  total-remove = elim (find-cases k m.entries) [
    | inl e ↦ ground arith
    | inr (inl e) ↦ ground arith
    | inr (inr (old, e)) ↦ ground (arith, total-write k none (some old) m.entries e)
  ]

  pub total-update_with :
      {R : Type 0} (f : StoreValue Z S → StoreValue Z S × R)
      → total (update_with m k f).0.entries + weight (get_ref m k)
        ≡ total m.entries + weight (elim (get_ref m k) [ none ↦ none | some v ↦ some (f v).0 ])
  unfolding update_with get_ref
  total-update_with f = elim (find-cases k m.entries) [
    | inl e ↦ ground arith
    | inr (inl e) ↦ ground arith
    | inr (inr (old, e)) ↦ ground (arith, total-write k (some (f old).0) (some old) m.entries e)
  ]
