-- ===== src/Store/Strings/Tests.antt =====
-- The theorems on strings at a store with a string, a list, and a string that has expired.
use flash_db.Base.{refl, ℕ, ◌≡◌, none, some, [], ◌∷◌, codes, ◌=ₛ◌, if◌then◌else◌}
use flash_db.Map.{get_ref, find}
use flash_db.Value.{string, list, StoreValue, Clock, is_expired, as_string}
use flash_db.Value.Collections.{ListInner}
use flash_db.Store.{Store, ok, err, would_overflow}
use flash_db.Resp.Number.Decimal.{decimal, low_digits}
use flash_db.Base.Int.{pos, ◌+ℤ◌}
use flash_db.Resp.Replies.{signed}
use flash_db.Store.Strings.Counters.{int_op}
use flash_db.Resp.Number.Parse.{in_i64}
use flash_db.Store.Strings.Counters.Sums.{int_op_lem}
use flash_db.Store.Strings.{get, append, strlen}
use flash_db.Store.Strings.Commands.{grown, append_lem}

abbrev clock : Clock
clock = record { unix_ms_cache = 900; now_ms = 1000 }

abbrev greeting : StoreValue ℕ ℕ
greeting = record { value = string (codes "he"); expires_ms = 5000 }

abbrev letters : StoreValue ℕ ℕ
letters = record { value = list (ListInner.compact (codes "a" ∷ [])); expires_ms = 0 }

abbrev stale : StoreValue ℕ ℕ
stale = record { value = string (codes "old"); expires_ms = 500 }

abbrev counter : StoreValue ℕ ℕ
counter = record { value = string (codes "41"); expires_ms = 500 }

abbrev kept : Store ℕ ℕ
kept = record {
  contents = record {
    entries =
        (codes "g", some greeting)
        ∷ (codes "l", some letters)
        ∷ (codes "e", some stale)
        ∷ (codes "n", some counter)
        ∷ [];
    key_count = 4;
    max_keys = 8;
  };
  connected_clients = 1;
  ttl_count = 3;
  ttl_generation = 2;
}

append_lem_example :
    let done = append clock kept (codes "g") (codes "llo") in
    ((get clock done.0 (codes "g")).1 ≡ (
      if codes "g" =ₛ codes "g"
      then grown clock (codes "llo") (get_ref kept.contents (codes "g"))
      else (get clock kept (codes "g")).1))
    × (strlen clock done.0 (codes "g") ≡ done.1)
append_lem_example = append_lem clock kept (codes "g") (codes "g") (codes "llo")

counter_found : get_ref kept.contents (codes "n") ≡ some counter
unfolding get_ref find ◌=ₛ◌
counter_found = refl

counter_text : as_string counter.value ≡ some (signed (pos 41))
unfolding as_string decimal low_digits
counter_text = refl

int_op_lem_example :
    let done = int_op kept (codes "n") (pos 1) in
    let sum = pos 41 +ℤ pos 1 in
    let fits = in_i64 sum in
    (get_ref done.0.contents (codes "n")
      ≡ some (if fits then record counter { value = string (signed sum) } else counter))
    × (done.1 ≡ (if fits then ok sum else err would_overflow))
    × ((get clock done.0 (codes "n")).1
        ≡ (if is_expired clock counter then none else some (signed (if fits then sum else pos 41))))
int_op_lem_example =
    int_op_lem kept (codes "n") counter clock (pos 41) (pos 1) counter_found counter_text refl
