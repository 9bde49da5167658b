-- ===== src/Store/Strings/Counters.antt =====
-- INCR, DECR, INCRBY and DECRBY of src/storage/string.rs. The mutex around the creation of a key has no
-- state: the second look at the map is kept, and finds what the first did.
pub mod Sums
use flash_db.Base.{
  ℕ, suc, ◌+◌, ◌-◌, ◌*◌, ◌^◌, ◌≤◌, ◌<◌, ◌≡◌, ◌≢◌, refl, Bool, true, false, ◌&&◌, Option, none, some,
  [], ◌∷◌, Bytes, ◌=ₛ◌, eq_refl, ◌==◌, ltb, leb, if◌then◌else◌, inl, inr, Bool-cases, ap, arith,
}
use flash_db.Base.Int.{ℤ, pos, negsuc, ◌+ℤ◌}
use flash_db.Resp.Number.Decimal.{
  decimal, IsDigits, decimal-IsDigits, value_from, value_from-decimal, decimal-ne-nil,
}
use flash_db.Resp.Replies.{signed}
use flash_db.Resp.Number.Parse.{in_i64, negate, checked_i64, parse_i64}
use flash_db.Map.{get_ref, insert, update_with}
use flash_db.Map.Laws.{changed, get_ref-update_with, update_with_result}
use flash_db.Value.{string, StoreValue, Clock, is_expired, as_string}
use flash_db.Store.{Store, Result, ok, err, wrong_type, not_an_integer, would_overflow}
use flash_db.Store.Keys.{unwrap_or}
use flash_db.Store.Strings.{string_value, get}
use flash_db.Store.Strings.Commands.{seen, get_result}

-- The closures write the sum back, unless there is no number to add to or the sum is no i64.
unfoldable pub added : {Z S : Type 0} → ℤ → StoreValue Z S → ℤ → StoreValue Z S × Result ℤ
added delta v n = elim (checked_i64 (n +ℤ delta)) [
  | none ↦ (v, err would_overflow)
  | some new ↦ (record v { value = string (signed new) }, ok new)
]

module _ {Z S : Type 0} where
  unfoldable pub int_entry : ℤ → StoreValue Z S → StoreValue Z S × Result ℤ
  int_entry delta v = elim (as_string v.value) [
    | none ↦ (v, err wrong_type)
    | some text ↦ elim (parse_i64 text) [
      | none ↦ (v, err not_an_integer)
      | some n ↦ added delta v n
    ]
  ]

  -- The closure of the second look counts from 0 where the text is no number.
  unfoldable pub int_entry_locked : ℤ → StoreValue Z S → StoreValue Z S × Result ℤ
  int_entry_locked delta v = elim (as_string v.value) [
    | none ↦ (v, err wrong_type)
    | some text ↦ added delta v (unwrap_or (pos 0) (parse_i64 text))
  ]

  unfoldable pub int_op : Store Z S → Bytes → ℤ → Store Z S × Result ℤ
  int_op s key delta =
      let (m, result) = update_with s.contents key (int_entry delta) in
      let (m', again) = update_with m key (int_entry_locked delta) in
      elim result [
        | some r ↦ (record s { contents = m }, r)
        | none ↦ elim again [
          | some r ↦ (record s { contents = m' }, r)
          | none ↦
              (record s { contents = (insert m' key (string_value (signed delta))).0 }, ok delta)
        ]
      ]

  unfoldable pub incr : Store Z S → Bytes → Store Z S × Result ℤ
  incr s key = int_op s key (pos 1)

  unfoldable pub decr : Store Z S → Bytes → Store Z S × Result ℤ
  decr s key = int_op s key (negsuc 0)

  unfoldable pub incrby : Store Z S → Bytes → ℤ → Store Z S × Result ℤ
  incrby s key by = int_op s key by

  -- `checked_neg`
  unfoldable pub decrby : Store Z S → Bytes → ℤ → Store Z S × Result ℤ
  decrby s key (pos n) = int_op s key (negate n)
  decrby s key (negsuc n) =
      if in_i64 (pos (suc n)) then int_op s key (pos (suc n)) else (s, err would_overflow)
