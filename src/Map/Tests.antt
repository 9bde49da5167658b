-- ===== src/Map/Tests.antt =====
-- The theorems on the map at a map of two keys, one of them removed.
use flash_db.Base.{ℕ, ◌+◌, ◌≤◌, ◌≡◌, ◌↔◌, refl, none, some, [], ◌∷◌, codes, arith}
use flash_db.Map.{
  CustomMap, Full, full, get_ref, insert, set, insert_if_absent, remove, remove_no_clone,
  update_with, update, try_insert, try_set,
}
use flash_db.Map.Counts.{IsCounted, writes-IsCounted, try_insert_bounds}

abbrev two : CustomMap ℕ
two = record { entries = (codes "a", some 1) ∷ (codes "b", none) ∷ []; key_count = 1; max_keys = 2 }

abbrev bump : ℕ → ℕ × ℕ
bump n = (n + 1, n)

writes-IsCounted_example :
    IsCounted (insert two (codes "b") 7).0
    × IsCounted (set two (codes "b") 7).0
    × IsCounted (insert_if_absent two (codes "b") 7).0
    × IsCounted (remove two (codes "b")).0
    × IsCounted (remove_no_clone two (codes "b")).0
    × IsCounted (update_with two (codes "b") bump).0
    × IsCounted (update two (codes "b") bump).0
unfolding flash_db.Map.Find.occupancy
writes-IsCounted_example = writes-IsCounted two (codes "b") 7 bump refl

try_insert_bounds_example :
    ((try_insert two (codes "c") 7).0.key_count ≤ 2)
    × (try_set two (codes "c") 7 ≡ try_insert two (codes "c") 7)
    × (((try_insert two (codes "c") 7).1 ≡ full) ↔ ((2 ≤ 1) × (get_ref two (codes "c") ≡ none)))
    × ((try_insert two (codes "c") 7).1 ≡ full → (try_insert two (codes "c") 7).0 ≡ two)
try_insert_bounds_example = try_insert_bounds two (codes "c") 7 (omega arith)
