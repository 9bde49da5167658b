-- ===== src/Store/Lists/Index.antt =====
-- `normalize_index` of src/storage/list.rs: an index from either end.
use flash_db.Base.{ℕ, suc, ◌-◌, Option, none, some, ltb, if◌then◌else◌}
use flash_db.Base.Int.{ℤ, pos, negsuc}

unfoldable pub normalize_index : ℤ → ℕ → Option ℕ
normalize_index (pos n) len = if ltb n len then some n else none
normalize_index (negsuc n) len =
    if ltb len (suc n) then none else if ltb (len - suc n) len then some (len - suc n) else none
