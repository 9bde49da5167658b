-- ===== src/Store/Lists/Move.antt =====
-- LMOVE of src/storage/list.rs between two keys: a pop at the source, then a push at the destination.
use flash_db.Base.{Option, some, Bytes}
use flash_db.Store.{Store, Result, ok, err}

-- The result of LMOVE, given the one of its push.
moved : Bytes → Result Unit → Result (Option Bytes)
moved x (ok u) = ok (some x)
moved x (err e) = err e
