-- ===== src/Store/Strings/Counters/Sums.antt =====
-- INCRBY on a number: the text that it reads and writes, its sum, and its overflow.
use flash_db.Base.{◌≡◌, refl, true, none, some, Bytes, eq_refl, if◌then◌else◌, inl, inr, Bool-cases}
use flash_db.Base.Int.{ℤ, ◌+ℤ◌}
use flash_db.Resp.Replies.{signed}
use flash_db.Map.{get_ref}
use flash_db.Map.Laws.{changed, get_ref-update_with, update_with_result}
use flash_db.Value.{string, StoreValue, Clock, is_expired, as_string}
use flash_db.Store.{Store, ok, err, would_overflow}
use flash_db.Store.Strings.{get}
use flash_db.Store.Strings.Commands.{seen, get_result}
use flash_db.Store.Strings.Counters.{added, int_entry, int_op}
use flash_db.Resp.Number.Parse.{in_i64}
use flash_db.Resp.Number.Parse.RoundTrip.{parse_i64-signed}

module _ {Z S : Type 0} (s : Store Z S) (key : Bytes) (v : StoreValue Z S) where
  int_entry_at :
      (n delta : ℤ)
      → as_string v.value ≡ some (signed n)
      → in_i64 n ≡ true
      → int_entry delta v ≡ added delta v n
  unfolding int_entry
  int_entry_at n delta e h = rw (int_entry, e, parse_i64-signed n h) refl

  -- The value and the result after a counter of value `n` is asked to add `delta`.
  added_at :
      (n delta : ℤ)
      → get_ref s.contents key ≡ some v
      → as_string v.value ≡ some (signed n)
      → in_i64 n ≡ true
      → let done = int_op s key delta in
        let r = added delta v n in (get_ref done.0.contents key ≡ some r.0) × (done.1 ≡ r.1)
  unfolding int_op
  added_at n delta g e h =
      let f = int_entry {Z = Z} {S = S} delta in
      let k = get_ref-update_with s.contents key key f in
      let r = update_with_result s.contents key key f in
      let a = int_entry_at n delta e h in
      (rw (int_op, r, g, k, eq_refl key, changed, g, a) refl, rw (int_op, r, g, a) refl)

  -- INCRBY (as INCR and DECR, by 1 and -1) on a key that holds the text of a 64-bit integer: if the
  -- sum is a 64-bit integer the key holds its text, with the expiry it had, and the sum is
  -- returned; if it is not, the value stays and the error is returned. Where the expiry has passed,
  -- GET finds nothing after it all the same.
  pub int_op_lem :
      (c : Clock) (n delta : ℤ)
      → get_ref s.contents key ≡ some v
      → as_string v.value ≡ some (signed n)
      → in_i64 n ≡ true
      → let done = int_op s key delta in
        let sum = n +ℤ delta in
        let fits = in_i64 sum in
        (get_ref done.0.contents key
          ≡ some (if fits then record v { value = string (signed sum) } else v))
        × (done.1 ≡ (if fits then ok sum else err would_overflow))
        × ((get c done.0 key).1
            ≡ (if is_expired c v then none else some (signed (if fits then sum else n))))
  unfolding added seen as_string is_expired
  int_op_lem c n delta g e h =
      let a = added_at n delta g e h in
      let done = int_op s key delta in
      let w = get_result c done.0 key in
      elim (Bool-cases (in_i64 (n +ℤ delta))) [
        | inl x ↦ (rw (a.0, added, x) refl, rw (a.1, added, x) refl, rw (w, a.0, added, x) refl)
        | inr x ↦
            (rw (a.0, added, x) refl, rw (a.1, added, x) refl, rw (w, a.0, added, x, seen, e) refl)
      ]
