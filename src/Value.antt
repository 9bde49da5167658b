-- ===== src/Value.antt =====
-- src/storage/value/mod.rs: what a key holds, and the clock that decides when it expires. The payloads
-- of sorted sets and streams are the parameters `Z` and `S`. A `SmallStr` is its bytes.
pub mod Collections
pub mod Float
pub mod SortedSet
use flash_db.Base.{
  ℕ, ◌+◌, ◌-◌, ◌*◌, ◌^◌, ◌<◌, Bool, true, false, not, ◌&&◌, Option, none, some, List, Bytes, codes,
  ltb, leb, ◌==◌, if◌then◌else◌,
}
use flash_db.Value.Collections.{HashInner, ListInner, SetInner, deque, with_deque}

pub data FyroDb (Z S : Type 0) : Type 0 where
  string : Bytes → FyroDb Z S
  hash : HashInner → FyroDb Z S
  list : ListInner → FyroDb Z S
  set : SetInner → FyroDb Z S
  zset : Z → FyroDb Z S
  json : Bytes → FyroDb Z S
  stream : S → FyroDb Z S

pub record StoreValue (Z S : Type 0) : Type 0 where
  pub value : FyroDb Z S
  pub expires_ms : ℕ

-- `UNIX_MS_CACHE` and the system's clock.
pub record Clock : Type 0 where
  pub unix_ms_cache : ℕ
  pub now_ms : ℕ

unfoldable pub tick_clock : Clock → Clock
tick_clock c = record c { unix_ms_cache = c.now_ms }

unfoldable pub approx_now_ms : Clock → ℕ
approx_now_ms c = if c.unix_ms_cache == 0 then c.now_ms else c.unix_ms_cache

-- `checked_mul` and `checked_add` on u64
abbrev pub checked : ℕ → Option ℕ
checked n = if ltb n (2 ^ 64) then some n else none

unfoldable pub expiry_from_ms : Clock → ℕ → Option ℕ
expiry_from_ms c ms = checked (approx_now_ms c + ms)

unfoldable pub expiry_from_secs : Clock → ℕ → Option ℕ
expiry_from_secs c secs = elim (checked (secs * 1000)) [
  | none ↦ none
  | some ms ↦ checked (approx_now_ms c + ms)
]

unfoldable pub expiry_from_unix_secs : ℕ → Option ℕ
expiry_from_unix_secs unix_secs = checked (unix_secs * 1000)

module _ {Z S : Type 0} where
  unfoldable pub type_name : FyroDb Z S → Bytes
  type_name (string s) = codes "string"
  type_name (hash h) = codes "hash"
  type_name (list l) = codes "list"
  type_name (set s) = codes "set"
  type_name (zset z) = codes "zset"
  type_name (json s) = codes "ReJSON-RL"
  type_name (stream s) = codes "stream"

  unfoldable pub as_string : FyroDb Z S → Option Bytes
  as_string (string s) = some s
  as_string _ = none

  unfoldable pub as_hash : FyroDb Z S → Option HashInner
  as_hash (hash h) = some h
  as_hash _ = none

  unfoldable pub as_list : FyroDb Z S → Option (List Bytes)
  as_list (list l) = some (deque l)
  as_list _ = none

  -- What a write through `as_list_mut` leaves; the variant of the list stays.
  unfoldable pub with_list : FyroDb Z S → List Bytes → FyroDb Z S
  with_list (list l) xs = list (with_deque l xs)
  with_list v xs = v

  unfoldable pub as_set : FyroDb Z S → Option SetInner
  as_set (set s) = some s
  as_set _ = none

  unfoldable pub as_zset : FyroDb Z S → Option Z
  as_zset (zset z) = some z
  as_zset _ = none

  unfoldable pub is_expired : Clock → StoreValue Z S → Bool
  is_expired c v = not (v.expires_ms == 0) && leb v.expires_ms (approx_now_ms c)

  unfoldable pub is_expired_precise : Clock → StoreValue Z S → Bool
  is_expired_precise c v = not (v.expires_ms == 0) && leb v.expires_ms c.now_ms

  unfoldable pub ttl_ms : Clock → StoreValue Z S → Option ℕ
  ttl_ms c v =
      if v.expires_ms == 0
      then none
      else if leb v.expires_ms c.now_ms
      then none
      else some (v.expires_ms - c.now_ms)
