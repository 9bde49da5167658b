-- ===== src/Pubsub/Registry/Tests.antt =====
-- The theorems on the registry at one channel with two subscribers and two patterns.
use flash_db.Base.{ℕ, ◌≡◌, ◌≢◌, ap, Option, none, some, [], ◌∷◌, Bytes, codes, arith}
use flash_db.Pubsub.Registry.{PatternIndex, PubSub, Snapshot, first, new_index, add, check_all}
use flash_db.Pubsub.Registry.Patterns.{IsFiled, new_index-IsFiled, index-IsFiled, unlooked_buckets}

-- A hash that puts every channel into one shard.
abbrev flat : Bytes → ℕ
flat channel = 0

abbrev news : Snapshot
news = record { name = codes "news"; slots = 1 ∷ 2 ∷ [] } ∷ []

abbrev registry : PubSub
registry = record { shards = λ i. news; patterns = new_index }

abbrev indexed : PatternIndex
indexed = add new_index (codes "n?ws") 5

indexed-IsFiled : IsFiled indexed
indexed-IsFiled = (index-IsFiled new_index (codes "n?ws") 5 new_index-IsFiled).0

abbrev byte_of : Option ℕ → ℕ
byte_of none = 0
byte_of (some b) = b

other_byte : first (codes "sport") ≢ some b'n'
other_byte e = absurd (omega (arith, ap byte_of e))

unlooked_buckets_example : check_all (indexed.buckets b'n') (codes "sport") (codes "hi") ≡ (0, [])
unlooked_buckets_example =
    unlooked_buckets indexed b'n' (codes "sport") (codes "hi") indexed-IsFiled other_byte
