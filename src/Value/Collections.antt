-- ===== src/Value/Collections.antt =====
-- src/storage/value/collections.rs: hashes, lists and sets, each compact at first. A `HashMap` is an
-- association list and a `HashSet` a list; the order in which they are iterated is that of the list.
pub mod Hash
pub mod Set
use flash_db.Base.{ℕ, List, Bytes}
use flash_db.Base.Int.{ℤ}

abbrev pub compact_threshold : ℕ
compact_threshold = 64

abbrev pub Pairs : Type 0
Pairs = List (Bytes × Bytes)

-- `Compact` holds field and value in turn.
pub data HashInner : Type 0 where
  compact : List Bytes → HashInner
  full : Pairs → HashInner

pub data ListInner : Type 0 where
  compact full : List Bytes → ListInner

pub data SetInner : Type 0 where
  integers : List ℤ → SetInner
  compact full : List Bytes → SetInner

unfoldable pub deque : ListInner → List Bytes
deque (ListInner.compact v) = v
deque (ListInner.full v) = v

-- What a write through `deque_mut` leaves.
unfoldable pub with_deque : ListInner → List Bytes → ListInner
with_deque (ListInner.compact v) xs = ListInner.compact xs
with_deque (ListInner.full v) xs = ListInner.full xs
