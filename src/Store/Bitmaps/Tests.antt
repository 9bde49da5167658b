-- ===== src/Store/Bitmaps/Tests.antt =====
-- The theorem on SETBIT at a store with one string.
use flash_db.Base.{ℕ, ◌≡◌, true, some, [], ◌∷◌, codes, ◌==◌, ◌=ₛ◌, if◌then◌else◌, arith}
use flash_db.Map.{get_ref, find}
use flash_db.Value.{string, Clock, is_expired, as_string}
use flash_db.Store.{Store}
use flash_db.Store.Update.{map_ok}
use flash_db.Store.Update.Refine.{view, held}
use flash_db.Store.Bitmaps.{setbit, getbit}
use flash_db.Store.Bitmaps.Bits.{as_bit}
use flash_db.Store.Bitmaps.Setting.{AreBytesAt, string_at, setbit_lem}

abbrev clock : Clock
clock = record { unix_ms_cache = 0; now_ms = 1000 }

abbrev kept : Store ℕ ℕ
kept = record {
  contents = record {
    entries = (codes "b", some (record { value = string (codes "@A"); expires_ms = 0 })) ∷ [];
    key_count = 1;
    max_keys = 8;
  };
  connected_clients = 1;
  ttl_count = 0;
  ttl_generation = 0;
}

at_bits : AreBytesAt (string_at clock (codes "b") kept)
unfolding held view get_ref find is_expired as_string ◌=ₛ◌
at_bits = (omega arith, (omega arith, tt))

setbit_lem_example :
    let done = setbit clock kept (codes "b") 20 true in
    (getbit clock done.0 (codes "b") 9
      ≡ map_ok (λ b. if 20 == 9 then as_bit true else b) (getbit clock kept (codes "b") 9))
    × (done.1 ≡ getbit clock kept (codes "b") 20)
    × (get_ref done.0.contents (codes "c") ≡ (
        if codes "b" =ₛ codes "c"
        then get_ref done.0.contents (codes "b")
        else get_ref kept.contents (codes "c")))
setbit_lem_example = setbit_lem clock (codes "b") kept (codes "c") 20 9 true at_bits
