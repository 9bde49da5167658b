-- ===== src/Pubsub/Registry/Subscriptions.antt =====
-- Subscribing, unsubscribing and publishing in terms of the subscribers of each channel.
use flash_db.Base.{ℕ, List, Bytes}
use flash_db.Pubsub.Registry.{PubSub, shard_index}
use flash_db.Pubsub.Registry.Channels.{subscribers, IsDistinct}

module _ (hash_one : Bytes → ℕ) where
  -- The subscribers of a channel.
  abbrev pub subscribed : PubSub → Bytes → List ℕ
  subscribed p j = subscribers (p.shards (shard_index hash_one j)) j

  -- No shard has two entries for a channel.
  abbrev pub IsConsistent : PubSub → Type 0
  IsConsistent p = (i : ℕ) → IsDistinct (p.shards i)
