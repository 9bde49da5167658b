-- ===== src/Store/Hashes/Tests.antt =====
-- The theorems on HSET at a store with one hash.
use flash_db.Base.{ℕ, ◌≡◌, refl, some, [], ◌∷◌, codes, ◌=ₛ◌, if◌then◌else◌}
use flash_db.Map.{get_ref, find}
use flash_db.Value.{hash, StoreValue, Clock, is_expired, as_hash}
use flash_db.Value.Collections.{HashInner, Pairs}
use flash_db.Store.{Store}
use flash_db.Store.Update.Refine.{view, held}
use flash_db.Store.Hashes.{hset, hget}
use flash_db.Store.Hashes.Setting.{IsHashAt, hash_at, hget_after, hset_lem}

abbrev clock : Clock
clock = record { unix_ms_cache = 0; now_ms = 1000 }

abbrev user : StoreValue ℕ ℕ
user = record {
  value = hash (HashInner.compact (codes "name" ∷ codes "Ann" ∷ codes "age" ∷ codes "7" ∷ []));
  expires_ms = 0;
}

abbrev kept : Store ℕ ℕ
kept = record {
  contents = record { entries = (codes "u", some user) ∷ []; key_count = 1; max_keys = 8 };
  connected_clients = 1;
  ttl_count = 0;
  ttl_generation = 0;
}

abbrev twice : Pairs
twice = (codes "age", codes "8") ∷ (codes "age", codes "9") ∷ []

at_user : IsHashAt (hash_at clock (codes "u") kept)
unfolding held view get_ref find is_expired as_hash ◌=ₛ◌
at_user = ((refl, tt), (tt, tt))

hset_lem_example :
    let done = hset clock kept (codes "u") twice in
    (hget clock done.0 (codes "u") (codes "age")
      ≡ hget_after twice (codes "age") (hash_at clock (codes "u") kept))
    × (get_ref done.0.contents (codes "v") ≡ (
        if codes "u" =ₛ codes "v"
        then get_ref done.0.contents (codes "u")
        else get_ref kept.contents (codes "v")))
hset_lem_example = hset_lem clock kept (codes "u") twice (codes "age") (codes "v") at_user
