-- ===== src/Store/SortedSets/Removing.antt =====
-- ZREM as a function on the sorted set that a key stands for, and in terms of ZSCORE and ZCARD.
use flash_db.Base.{Bytes}
use flash_db.Value.{Clock, as_zset}
use flash_db.Value.SortedSet.{ZSetData, new}
use flash_db.Value.SortedSet.Insertion.{IsZSet}
use flash_db.Store.{Store, Result, ok, err}
use flash_db.Store.Update.Refine
use flash_db.Store.Update.Refine.{held}

abbrev pub zset_at : {S : Type 0} → Clock → Bytes → Store ZSetData S → Result ZSetData
zset_at c key t = held as_zset new c t key

-- The sorted set that a key stands for, if it stands for one, is in order.
abbrev pub IsZSetAt : Result ZSetData → Type 0
IsZSetAt (ok z) = IsZSet z
IsZSetAt (err e) = Unit
