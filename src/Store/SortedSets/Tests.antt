-- ===== src/Store/SortedSets/Tests.antt =====
-- The theorems on the sorted-set commands at a store with one sorted set.
use flash_db.Base.{ℕ, ◌≡◌, refl, true, false, some, List, [], ◌∷◌, Bytes, codes, arith}
use flash_db.Base.Int.{pos}
use flash_db.Value.{zset, Clock}
use flash_db.Value.Float.{F64, is_nan}
use flash_db.Value.SortedSet.{ZSetData}
use flash_db.Value.SortedSet.Tests.{rounding, board, board-IsZSet}
use flash_db.Store.{Store}
use flash_db.Store.SortedSets.{ZAddFlags, zadd_loop, pairs, rank_range}
use flash_db.Store.SortedSets.Adding.{Added, zadd_loop_lem}
use flash_db.Store.SortedSets.Ranks.{rank_range_beyond}

abbrev clock : Clock
clock = record { unix_ms_cache = 0; now_ms = 1000 }

abbrev kept : Store ZSetData ℕ
kept = record {
  contents = record {
    entries = (codes "z", some (record { value = zset board; expires_ms = 0 })) ∷ [];
    key_count = 1;
    max_keys = 8;
  };
  connected_clients = 1;
  ttl_count = 0;
  ttl_generation = 0;
}

abbrev only_new : ZAddFlags
only_new = record { nx = true; xx = false; gt = false; lt_ = false; ch = false }

abbrev scored : List (F64 × Bytes)
scored = (0x4000000000000000, codes "Ann") ∷ (0x4000000000000000, codes "Cat") ∷ []

numbers : is_nan 0x4000000000000000 ≡ false
unfolding is_nan
numbers = refl

zadd_loop_lem_example : Added only_new board (zadd_loop rounding only_new scored board 0 0)
zadd_loop_lem_example =
    zadd_loop_lem rounding only_new scored board (numbers, (numbers, tt)) board-IsZSet

rank_range_beyond_example :
    rank_range (pos 5) (pos 9) board
    ≡ pairs (record { score = 0x4008000000000000; member = codes "Bob" } ∷ [])
rank_range_beyond_example =
    rank_range_beyond board (record { score = 0x3ff0000000000000; member = codes "Ann" } ∷ [])
      (record { score = 0x4008000000000000; member = codes "Bob" }) 5 9 refl (omega arith)
      (omega arith) (omega arith)
