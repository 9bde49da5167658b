-- ===== src/Store.antt =====
-- src/storage/store.rs: the store, its counters of clients and of keys with an expiry. The counters are
-- atomics; each method is one step. The mutex `int_create_lock` has no state of its own.
pub mod Ttl
pub mod Keys
pub mod Update
pub mod Bitmaps
pub mod Hashes
pub mod Lists
pub mod Sets
pub mod SortedSets
pub mod Strings
mod Tests
use flash_db.Base.{
  ℕ, zero, suc, ◌+◌, ◌-◌, ◌<◌, ◌%◌, ◌^◌, Bool, true, false, ltb, ◌==◌, if◌then◌else◌, Bytes, codes,
}
use flash_db.Map
use flash_db.Map.{CustomMap}
use flash_db.Value.{StoreValue}

pub record Store (Z S : Type 0) : Type 0 where
  pub contents : CustomMap (StoreValue Z S)
  pub connected_clients : ℕ
  pub ttl_count : ℕ
  pub ttl_generation : ℕ

-- The `&'static str` of a failed operation.
pub data Error : Type 0 where
  wrong_type no_such_key index_out_of_range not_an_integer would_overflow one_source : Error

pub data Result (A : Type 0) : Type 0 where
  ok : A → Result A
  err : Error → Result A

unfoldable pub error_text : Error → Bytes
error_text wrong_type = codes "WRONGTYPE"
error_text no_such_key = codes "no such key"
error_text index_out_of_range = codes "index out of range"
error_text not_an_integer = codes "value is not an integer or out of range"
error_text would_overflow = codes "increment or decrement would overflow"
error_text one_source = codes "BITOP NOT requires one source key"

module _ {Z S : Type 0} where
  unfoldable pub with_config : ℕ → Store Z S
  with_config max_keys = record {
    contents = Map.with_capacity max_keys;
    connected_clients = 0;
    ttl_count = 0;
    ttl_generation = 0;
  }

  unfoldable pub client_connected : Store Z S → Store Z S
  client_connected s = record s { connected_clients = (s.connected_clients + 1) % 2 ^ 64 }

  unfoldable pub client_disconnected : Store Z S → Store Z S
  client_disconnected s = record s {
    connected_clients = (s.connected_clients + 2 ^ 64 - 1) % 2 ^ 64;
  }

  unfoldable pub add_ttl : Store Z S → Store Z S
  add_ttl s = record s {
    ttl_generation = (s.ttl_generation + 1) % 2 ^ 64;
    ttl_count = (s.ttl_count + 1) % 2 ^ 64;
  }

  -- `checked_sub`: at 0 the count stays.
  unfoldable pub sub_ttl : Store Z S → Store Z S
  sub_ttl s = if s.ttl_count == 0 then s else record s { ttl_count = s.ttl_count - 1 }

  unfoldable pub has_ttl_keys : Store Z S → Bool
  has_ttl_keys s = ltb 0 s.ttl_count

  unfoldable pub reset_ttl_count : Store Z S → Store Z S
  reset_ttl_count s = record s { ttl_count = 0; ttl_generation = (s.ttl_generation + 1) % 2 ^ 64 }

  -- With no other thread between its loads the exchange succeeds if the generation is the scan's.
  unfoldable pub finish_ttl_scan : Store Z S → ℕ → ℕ → Store Z S
  finish_ttl_scan s generation live_ttls =
      if s.ttl_generation == generation then record s { ttl_count = live_ttls } else s
