-- ===== src/Store/Sets/Tests.antt =====
-- The theorems on the set commands at a store with two sets and a string.
use flash_db.Base.{
  ℕ, refl, [], ◌∷◌, Bytes, codes, false, true, some, List, not, ◌≡◌, ◌&&◌, ◌||◌, ◌=ₛ◌,
  if◌then◌else◌,
}
use flash_db.Map.{get_ref, find}
use flash_db.Value.{string, set, StoreValue, Clock, is_expired, approx_now_ms, as_set}
use flash_db.Value.Collections.{SetInner}
use flash_db.Value.Collections.Set.{member_of}
use flash_db.Store.{Store}
use flash_db.Store.Update.{map_ok}
use flash_db.Store.Update.Refine.{view, held}
use flash_db.Store.Sets.{sismember, smove}
use flash_db.Store.Sets.Combine.{sunion, sinter, sdiff}
use flash_db.Store.Sets.Changes.{set_at, IsSetAt}
use flash_db.Store.Sets.Algebra.{Answers, has, wrong, is_true, any_of, all_of}
use flash_db.Store.Sets.Algebra.Loops.{algebra_lem}
use flash_db.Store.Sets.Move.{smove_lem}

abbrev clock : Clock
clock = record { unix_ms_cache = 0; now_ms = 1000 }

abbrev fruit : StoreValue ℕ ℕ
fruit = record { value = set (SetInner.compact (codes "fig" ∷ codes "kiwi" ∷ [])); expires_ms = 0 }

abbrev meat : StoreValue ℕ ℕ
meat = record { value = set (SetInner.full (codes "kiwi" ∷ [])); expires_ms = 2000 }

abbrev text : StoreValue ℕ ℕ
text = record { value = string (codes "fig"); expires_ms = 0 }

abbrev kept : Store ℕ ℕ
kept = record {
  contents = record {
    entries = (codes "f", some fruit) ∷ (codes "t", some text) ∷ (codes "m", some meat) ∷ [];
    key_count = 3;
    max_keys = 8;
  };
  connected_clients = 1;
  ttl_count = 0;
  ttl_generation = 0;
}

at_fruit : IsSetAt (set_at clock kept (codes "f"))
unfolding held view get_ref find is_expired as_set member_of ◌=ₛ◌
at_fruit = (refl, (refl, tt))

at_text : IsSetAt (set_at clock kept (codes "t"))
unfolding held view get_ref find is_expired as_set member_of ◌=ₛ◌
at_text = tt

at_meat : IsSetAt (set_at clock kept (codes "m"))
unfolding held view get_ref find is_expired as_set member_of ◌=ₛ◌ approx_now_ms
at_meat = (refl, tt)

abbrev both : List Bytes
both = codes "f" ∷ codes "m" ∷ []

algebra_lem_example :
    Answers
      (codes "kiwi")
      (any_of (has clock kept (codes "kiwi")) both)
      (any_of (wrong clock kept (codes "kiwi")) both)
      (sunion clock kept both)
    × Answers
        (codes "kiwi")
        (all_of (has clock kept (codes "kiwi")) both)
        (any_of (wrong clock kept (codes "kiwi")) both)
        (sinter clock kept both)
    × Answers
        (codes "kiwi")
        (has clock kept (codes "kiwi") (codes "f")
          && not (any_of (has clock kept (codes "kiwi")) (codes "m" ∷ [])))
        (any_of (wrong clock kept (codes "kiwi")) both)
        (sdiff clock kept both)
algebra_lem_example =
    algebra_lem clock kept (codes "kiwi") (codes "f") (codes "m" ∷ []) (at_fruit, (at_meat, tt))

keys_differ : (codes "f" =ₛ codes "t") ≡ false
unfolding ◌=ₛ◌
keys_differ = refl

smove_lem_example :
    let done = smove clock kept (codes "f") (codes "t") (codes "fig") in
    let taken = sismember clock kept (codes "f") (codes "fig") in
    (sismember clock done.0 (codes "f") (codes "fig")
      ≡ map_ok
          (λ b. not (codes "fig" =ₛ codes "fig") && b)
          (sismember clock kept (codes "f") (codes "fig")))
    × (sismember clock done.0 (codes "t") (codes "fig") ≡ (
        if is_true taken
        then map_ok
            (λ b. (codes "fig" =ₛ codes "fig") || b)
            (sismember clock kept (codes "t") (codes "fig"))
        else sismember clock kept (codes "t") (codes "fig")))
    × (done.1 ≡ (
        if is_true taken
        then map_ok (λ b. true) (sismember clock kept (codes "t") (codes "fig"))
        else taken))
smove_lem_example =
    smove_lem clock kept (codes "f") (codes "t") (codes "fig") (codes "fig") keys_differ at_fruit
      at_text
