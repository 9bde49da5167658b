-- ===== src/Store/Hashes/Counting.antt =====
-- The rounds of HINCRBY.
use flash_db.Base.{
  ◌≡◌, refl, sym, ◌∙◌, Bool, true, false, Option, none, some, Bytes, eq_refl, if◌then◌else◌,
}
use flash_db.Base.Int.{ℤ}
use flash_db.Resp.Replies.{signed}
use flash_db.Map.{get_ref, update_with, insert_if_absent}
use flash_db.Map.Laws.{get_ref-update_with, update_with_result, insert_if_absent_result}
use flash_db.Value.{StoreValue, Clock}
use flash_db.Store.{Store, Result, ok}
use flash_db.Store.Hashes.{full_hash, hincrby_entry, hincrby_rounds, hincrby}

module _ {Z S : Type 0} (c : Clock) (s : Store Z S) (key : Bytes) (field : Bytes) (by : ℤ) where
  abbrev ended : {A : Type 0} → Option A → Bool
  ended none = false
  ended (some a) = true

  -- With one caller HINCRBY ends in its first round.
  pub hincrby_ends : ended (hincrby c s key field by).1 ≡ true
  unfolding hincrby hincrby_rounds
  hincrby_ends =
      let f = hincrby_entry c field by in
      let u = update_with s.contents key f in
      let i = insert_if_absent u.0 key (full_hash field (signed by)) in
      one_round (record s { contents = u.0 }) (record s { contents = i.0 }) u.1 i.1
        (λ e.
          absent_then (get_ref s.contents key) refl
            (sym (update_with_result s.contents key key f) ∙ e))
    where
      one_round :
          (t t' : Store Z S) (r : Option (Result ℤ)) (inserted : Bool)
          → (r ≡ none → inserted ≡ true)
          → ended
              (elim r as (λ r. Store Z S × Option (Result ℤ)) [
                | none ↦ if inserted then (t', some (ok by)) else (t', none)
                | some x ↦ (t, some x)
              ]).1
            ≡ true
      one_round t t' (some x) inserted h = refl
      one_round t t' none inserted h = rw (h refl) refl

      absent_then :
          (o : Option (StoreValue Z S))
          → get_ref s.contents key ≡ o
          → ◌≡◌ {A = Option (Result ℤ)}
              (elim o as (λ o. Option (Result ℤ)) [
                | none ↦ none
                | some v ↦ some (hincrby_entry c field by v).1
              ])
              none
          → (insert_if_absent
              (update_with s.contents key (hincrby_entry c field by)).0
              key
              (full_hash field (signed by))).1
            ≡ true
      absent_then (some v) e h = absurd (nothing h)
        where
          nothing : {x : Result ℤ} → some x ≡ none → ⊥
          nothing k = cc
      absent_then none e h =
          let u = (update_with s.contents key (hincrby_entry c field by)).0 in
          insert_if_absent_result u key key (full_hash field (signed by))
          ∙ rw (get_ref-update_with s.contents key key (hincrby_entry c field by), eq_refl key, e)
              refl
