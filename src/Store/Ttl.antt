-- ===== src/Store/Ttl.antt =====
-- The count of keys with an expiry that src/storage/store.rs keeps, against the keys of the map: while
-- it is 0 the sweep of main.rs and `cleanup_expired` look at nothing.
pub mod Counting
pub mod Steps
use flash_db.Base.{
  ℕ, zero, suc, ◌+◌, ◌≤◌, ◌<◌, ◌^◌, ◌≡◌, Bool, true, false, Option, none, some, List, [], ◌∷◌,
  Bytes, ◌==◌, if◌then◌else◌, arith,
}
use flash_db.Map.{Entry}
use flash_db.Value.{StoreValue}
use flash_db.Store.{Store, add_ttl, finish_ttl_scan, has_ttl_keys, reset_ttl_count}

module _ {Z S : Type 0} where
  -- 1 for a value with an expiry
  abbrev pub weight : Option (StoreValue Z S) → ℕ
  weight none = 0
  weight (some v) = if v.expires_ms == 0 then 0 else 1

  unfoldable pub total : List (Entry (StoreValue Z S)) → ℕ
  total [] = 0
  total ((k, o) ∷ es) = weight o + total es

  -- The number of keys that have an expiry, passed or not.
  abbrev pub ttl_keys : Store Z S → ℕ
  ttl_keys s = total s.contents.entries

  -- The count never falls short of the keys: the sweep runs while a key has an expiry.
  abbrev pub IsCovered : Store Z S → Type 0
  IsCovered s = ttl_keys s ≤ s.ttl_count

  -- A scan that began before an expiry was added cannot bring the count to 0, provided that the two
  -- counters are machine words and the count does not wrap.
  pub finish_ttl_scan-add_ttl :
      (s : Store Z S) (live_ttls : ℕ)
      → s.ttl_generation < 2 ^ 64
      → s.ttl_count + 1 < 2 ^ 64
      → has_ttl_keys (finish_ttl_scan (add_ttl s) s.ttl_generation live_ttls) ≡ true
  unfolding has_ttl_keys finish_ttl_scan add_ttl
  finish_ttl_scan-add_ttl s live_ttls h b = ground arith
