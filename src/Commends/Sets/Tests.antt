-- ===== src/Commends/Sets/Tests.antt =====
-- The handlers of the set commands at a store with a set and a string.
use flash_db.Base.{[], ◌∷◌, List, Bytes, codes, some}
use flash_db.Value.{string, set, StoreValue, Clock}
use flash_db.Value.Collections.{SetInner}
use flash_db.Store.{Store}

abbrev clock : Clock
clock = record { unix_ms_cache = 0; now_ms = 1000 }

abbrev fruit : StoreValue (Unit {0}) (Unit {0})
fruit = record { value = set (SetInner.compact (codes "fig" ∷ codes "kiwi" ∷ [])); expires_ms = 0 }

abbrev text : StoreValue (Unit {0}) (Unit {0})
text = record { value = string (codes "fig"); expires_ms = 0 }

abbrev kept : Store (Unit {0}) (Unit {0})
kept = record {
  contents = record {
    entries = (codes "f", some fruit) ∷ (codes "t", some text) ∷ [];
    key_count = 2;
    max_keys = 8;
  };
  connected_clients = 1;
  ttl_count = 0;
  ttl_generation = 0;
}

abbrev sent : Bytes
sent = codes "+OK\r\n"

-- SSCAN with a pattern.
abbrev parts : List Bytes
parts = codes "SSCAN" ∷ codes "f" ∷ codes "0" ∷ codes "match" ∷ codes "k*" ∷ []
