-- ===== src/Pubsub/Registry.antt =====
-- src/pubsub/registry.rs: who is subscribed to which channel and pattern, and whom a message reaches.
-- A mailbox is the number that stands for its address; its pushes are the deliveries that `publish`
-- returns. A snapshot is swapped in whole, so that each method is one step.
pub mod Channels
pub mod Subscriptions
pub mod Patterns
mod Tests
use flash_db.Base.{
  ℕ, zero, suc, ◌+◌, ◌-◌, ◌%◌, Bool, true, false, not, ◌&&◌, ◌||◌, Option, none, some, List, [],
  ◌∷◌, ◌++◌, map, Bytes, length, ltb, ◌==◌, ◌=ₛ◌, if◌then◌else◌,
}
use flash_db.Util.{glob_match_bytes}
use flash_db.Pubsub.Frame.{encode_message, encode_pmessage}

pub record PatternEntry : Type 0 where
  pub pattern_ : Bytes
  pub slot : ℕ

pub record ChannelData : Type 0 where
  pub name : Bytes
  pub slots : List ℕ

abbrev pub Snapshot : Type 0
Snapshot = List ChannelData

abbrev pub channel_shards : ℕ
channel_shards = 64

-- A mailbox and the frame that is pushed into it.
abbrev pub Delivery : Type 0
Delivery = ℕ × Bytes

unfoldable pub push_frames : List ℕ → Bytes → List Delivery
push_frames [] frame = []
push_frames (slot ∷ slots) frame = (slot, frame) ∷ push_frames slots frame

-- `publish` of a shard: the number it returns, and the deliveries.
unfoldable pub publish_shard : Snapshot → Bytes → Bytes → ℕ × List Delivery
publish_shard [] channel frame = (0, [])
publish_shard (ch ∷ snap) channel frame =
    let rest = publish_shard snap channel frame in
    if ch.name =ₛ channel then (length ch.slots, push_frames ch.slots frame) else rest

-- The loop of `subscribe`; its flag says whether the channel was found so far.
unfoldable pub subscribe_loop : Snapshot → Bytes → ℕ → Bool → Snapshot
subscribe_loop [] channel slot found =
    if found then [] else record { name = channel; slots = slot ∷ [] } ∷ []
subscribe_loop (ch ∷ snap) channel slot found =
    let joined = subscribe_loop snap channel slot true in
    let passed = subscribe_loop snap channel slot found in
    if ch.name =ₛ channel then record ch { slots = ch.slots ++ slot ∷ [] } ∷ joined else ch ∷ passed

unfoldable pub subscribe_shard : Snapshot → Bytes → ℕ → Snapshot
subscribe_shard snap channel slot = subscribe_loop snap channel slot false

unfoldable pub without_slot : ℕ → List ℕ → List ℕ
without_slot slot [] = []
without_slot slot (s ∷ slots) =
    let rest = without_slot slot slots in if s == slot then rest else s ∷ rest

-- A channel that keeps no subscriber goes.
unfoldable pub kept_channel : Bytes → List ℕ → Snapshot → Snapshot
kept_channel name [] rest = rest
kept_channel name (s ∷ slots) rest = record { name = name; slots = s ∷ slots } ∷ rest

unfoldable pub unsubscribe_shard : Snapshot → Bytes → ℕ → Snapshot
unsubscribe_shard [] channel slot = []
unsubscribe_shard (ch ∷ snap) channel slot =
    let rest = unsubscribe_shard snap channel slot in
    if ch.name =ₛ channel then kept_channel ch.name (without_slot slot ch.slots) rest else ch ∷ rest

unfoldable pub count_for : Snapshot → Bytes → ℕ
count_for [] channel = 0
count_for (ch ∷ snap) channel =
    let rest = count_for snap channel in if ch.name =ₛ channel then length ch.slots else rest

abbrev pub selects : Option Bytes → Bytes → Bool
selects none name = true
selects (some pattern_) name = glob_match_bytes pattern_ name

unfoldable pub active_channels_shard : Snapshot → Option Bytes → List Bytes
active_channels_shard [] pattern_ = []
active_channels_shard (ch ∷ snap) pattern_ =
    let rest = active_channels_shard snap pattern_ in
    if ltb 0 (length ch.slots) && selects pattern_ ch.name then ch.name ∷ rest else rest

-- The 256 buckets are a function of the byte.
pub record PatternIndex : Type 0 where
  pub buckets : ℕ → List PatternEntry
  pub wildcard : List PatternEntry
  pub total : ℕ

unfoldable pub new_index : PatternIndex
new_index = record { buckets = λ b. []; wildcard = []; total = 0 }

abbrev pub first : Bytes → Option ℕ
first [] = none
first (b ∷ s) = some b

-- The `match` on the first byte: the bucket, or none for the wildcards.
unfoldable pub bucket_of : Option ℕ → Option ℕ
bucket_of none = none
bucket_of (some b) = if (b == b'*') || (b == b'?') || (b == b'[') then none else some b

unfoldable pub filed : PatternIndex → Option ℕ → List PatternEntry
filed idx none = idx.wildcard
filed idx (some b) = idx.buckets b

unfoldable pub refile : PatternIndex → Option ℕ → List PatternEntry → PatternIndex
refile idx none es = record idx { wildcard = es }
refile idx (some b) es = record idx { buckets = λ a. if a == b then es else idx.buckets a }

unfoldable pub add : PatternIndex → Bytes → ℕ → PatternIndex
add idx pattern_ slot =
    let place = bucket_of (first pattern_) in
    let entry : PatternEntry = record { pattern_ = pattern_; slot = slot } in
    record (refile idx place (filed idx place ++ entry ∷ [])) { total = idx.total + 1 }

unfoldable pub retained : Bytes → ℕ → List PatternEntry → List PatternEntry
retained pattern_ slot [] = []
retained pattern_ slot (e ∷ es) =
    let rest = retained pattern_ slot es in
    if (e.pattern_ =ₛ pattern_) && (e.slot == slot) then rest else e ∷ rest

unfoldable pub remove : PatternIndex → Bytes → ℕ → PatternIndex
remove idx pattern_ slot =
    let place = bucket_of (first pattern_) in
    let before = length (filed idx place) in
    let es = retained pattern_ slot (filed idx place) in
    record (refile idx place es) {
      total = if ltb (length es) before then idx.total - (before - length es) else idx.total;
    }

-- `check` over a list of entries: how many matched, and the deliveries.
unfoldable pub check_all : List PatternEntry → Bytes → Bytes → ℕ × List Delivery
check_all [] channel message = (0, [])
check_all (e ∷ es) channel message =
    let (count, deliveries) = check_all es channel message in
    if glob_match_bytes e.pattern_ channel
    then (count + 1, (e.slot, encode_pmessage e.pattern_ channel message) ∷ deliveries)
    else (count, deliveries)

unfoldable pub check_bucket : PatternIndex → Option ℕ → Bytes → Bytes → ℕ × List Delivery
check_bucket idx none channel message = (0, [])
check_bucket idx (some b) channel message = check_all (idx.buckets b) channel message

unfoldable pub publish_patterns : PatternIndex → Bytes → Bytes → ℕ × List Delivery
publish_patterns idx channel message =
    let (wild, wild_deliveries) = check_all idx.wildcard channel message in
    let (plain, plain_deliveries) = check_bucket idx (first channel) channel message in
    if idx.total == 0 then (0, []) else (wild + plain, wild_deliveries ++ plain_deliveries)

pub record PubSub : Type 0 where
  pub shards : ℕ → Snapshot
  pub patterns : PatternIndex

-- `hash_one` of the hasher, a crate
module _ (hash_one : Bytes → ℕ) where
  unfoldable pub shard_index : Bytes → ℕ
  shard_index channel = hash_one channel % channel_shards

  unfoldable pub with_shard : PubSub → ℕ → Snapshot → PubSub
  with_shard p i snap = record p { shards = λ j. if j == i then snap else p.shards j }

  unfoldable pub subscribe : PubSub → Bytes → ℕ → PubSub
  subscribe p channel slot =
      let i = shard_index channel in with_shard p i (subscribe_shard (p.shards i) channel slot)

  unfoldable pub unsubscribe : PubSub → Bytes → ℕ → PubSub
  unsubscribe p channel slot =
      let i = shard_index channel in with_shard p i (unsubscribe_shard (p.shards i) channel slot)

  unfoldable pub publish : PubSub → Bytes → Bytes → ℕ × List Delivery
  publish p channel message =
      let frame = encode_message channel message in
      let (direct, deliveries) = publish_shard (p.shards (shard_index channel)) channel frame in
      let (matched, pattern_deliveries) = publish_patterns p.patterns channel message in
      (direct + matched, deliveries ++ pattern_deliveries)

  unfoldable pub numsub : PubSub → List Bytes → List (Bytes × ℕ)
  numsub p channels = map (λ ch. (ch, count_for (p.shards (shard_index ch)) ch)) channels

unfoldable pub psubscribe : PubSub → Bytes → ℕ → PubSub
psubscribe p pattern_ slot = record p { patterns = add p.patterns pattern_ slot }

unfoldable pub punsubscribe : PubSub → Bytes → ℕ → PubSub
punsubscribe p pattern_ slot = record p { patterns = remove p.patterns pattern_ slot }

unfoldable pub numpat : PubSub → ℕ
numpat p = p.patterns.total

-- The loop over the shards, `n` of them left.
unfoldable pub active_channels_from : PubSub → Option Bytes → ℕ → ℕ → List Bytes
active_channels_from p pattern_ i zero = []
active_channels_from p pattern_ i (suc n) =
    active_channels_shard (p.shards i) pattern_ ++ active_channels_from p pattern_ (i + 1) n

unfoldable pub active_channels : PubSub → Option Bytes → List Bytes
active_channels p pattern_ = active_channels_from p pattern_ 0 channel_shards
