-- ===== src/Store/Keys/Expiry.antt =====
-- EXPIRE, PERSIST and TTL of src/storage/keys.rs on a key whose value has not expired.
use flash_db.Base.{
  ℕ, ◌-◌, ◌<◌, ◌^◌, ◌≡◌, refl, ap, ◌∙◌, Bool, true, false, some, Bytes, min, ◌==◌, eq_refl, arith,
}
use flash_db.Base.Int.{pos}
use flash_db.Map.{get_ref, update_with}
use flash_db.Map.Laws.{changed, get_ref-update_with, update_with_result}
use flash_db.Value.{StoreValue, Clock, is_expired, ttl_ms, approx_now_ms}
use flash_db.Store.{Store, add_ttl}
use flash_db.Store.Keys.{expire_ms, expire_entry, accounted, unwrap_or, ttl_value_ms}

module _ {Z S : Type 0} (c : Clock) (s : Store Z S) (key : Bytes) (v : StoreValue Z S) where
  contents_accounted :
      (count : Store Z S → Store Z S) (t : Store Z S) (b : Bool)
      → (count t).contents ≡ t.contents
      → (accounted count t b).0.contents ≡ t.contents
  unfolding accounted
  contents_accounted count t true h = h
  contents_accounted count t false h = refl

  expire_entry-live :
      (abs_ms : ℕ)
      → is_expired c v ≡ false
      → expire_entry c abs_ms v ≡ (record v { expires_ms = abs_ms }, v.expires_ms == 0)
  unfolding expire_entry
  expire_entry-live abs_ms h = rw h refl

  -- EXPIRE on a live key sets the expiry, and returns whether the key had none before.
  pub expire_ms_result :
      (abs_ms : ℕ)
      → get_ref s.contents key ≡ some v
      → is_expired c v ≡ false
      → let done = expire_ms c s key abs_ms in
        (get_ref done.0.contents key ≡ some (record v { expires_ms = abs_ms }))
        × (done.1 ≡ (v.expires_ms == 0))
  unfolding expire_ms accounted add_ttl
  expire_ms_result abs_ms g h =
      let f = expire_entry {Z = Z} {S = S} c abs_ms in
      let r = update_with_result s.contents key key f in
      let k = get_ref-update_with s.contents key key f in
      let e = expire_entry-live abs_ms h in
      let done = update_with s.contents key f in
      let found : get_ref done.0 key ≡ some (record v { expires_ms = abs_ms }) =
        rw (k, eq_refl key, g, changed, e) refl in
      (
        ap (λ m. get_ref m key)
              (contents_accounted add_ttl (record s { contents = done.0 }) (unwrap_or false done.1)
                refl)
            ∙ found,
        rw (r, g, e) refl,
      )

  ttl_value_live :
      (t : Store Z S)
      → get_ref t.contents key ≡ some v
      → c.now_ms < v.expires_ms
      → approx_now_ms c < v.expires_ms
      → ttl_value_ms c t key ≡ pos (min (v.expires_ms - c.now_ms) (2 ^ 63 - 1))
  unfolding ttl_value_ms is_expired ttl_ms
  ttl_value_live t g a b = rw (g, ttl_value_ms) (ground arith)

module _ {Z S : Type 0} (c : Clock) (s : Store Z S) (key : Bytes) (v : StoreValue Z S) where
  -- PTTL after EXPIRE gives the time that is left, at most 2 ^ 63 - 1, provided that the key was
  -- live and the new expiry is later than both the exact and the cached clock.
  pub ttl_value_ms-expire_ms :
      (abs_ms : ℕ)
      → get_ref s.contents key ≡ some v
      → is_expired c v ≡ false
      → c.now_ms < abs_ms
      → approx_now_ms c < abs_ms
      → ttl_value_ms c (expire_ms c s key abs_ms).0 key ≡ pos (min (abs_ms - c.now_ms) (2 ^ 63 - 1))
  ttl_value_ms-expire_ms abs_ms g h a b =
      ttl_value_live c s key (record v { expires_ms = abs_ms }) (expire_ms c s key abs_ms).0
        ((expire_ms_result c s key v abs_ms g h).0) a b
