-- ===== src/Resp/Number/Parse/RoundTrip.antt =====
-- Every 64-bit integer is read back from its decimal text, and only such are read.
use flash_db.Base.{ℕ, suc, ◌+◌, ◌-◌, ◌*◌, ◌≡◌, ◌≢◌, refl, true, some, [], ◌∷◌, Bytes, arith}
use flash_db.Base.Int.{ℤ, pos, negsuc}
use flash_db.Resp.Number.Decimal.{
  decimal, IsDigits, decimal-IsDigits, value_from, value_from-decimal, decimal-ne-nil,
}
use flash_db.Resp.Replies.{signed}
use flash_db.Resp.Number.Parse.{read_digits, read_number, in_i64, checked_i64, parse_i64}

read_digits-value : (n : ℕ) (s : Bytes) → IsDigits s → read_digits n s ≡ some (value_from n s)
unfolding read_digits
read_digits-value n [] h = refl
read_digits-value n (b ∷ s) h = ground (arith, read_digits-value (n * 10 + (b - b'0')) s)

read_number-digits : (s : Bytes) → s ≢ [] → IsDigits s → read_number s ≡ some (value_from 0 s)
unfolding read_number
read_number-digits [] e h = absurd (e refl)
read_number-digits (b ∷ s) e h = read_digits-value 0 (b ∷ s) h

read_number-decimal : (n : ℕ) → read_number (decimal n) ≡ some n
read_number-decimal n =
    rw
      (read_number-digits (decimal n) (decimal-ne-nil n) (decimal-IsDigits n), value_from-decimal n)
      refl

unsigned_at :
    (s : Bytes) (n : ℕ)
    → s ≢ []
    → IsDigits s
    → read_number s ≡ some n
    → parse_i64 s ≡ checked_i64 (pos n)
unfolding parse_i64
unsigned_at [] n ne h e = absurd (ne refl)
unsigned_at (b ∷ s) n ne h e = ground arith

-- The text that a counter writes is read back, for every 64-bit integer.
pub parse_i64-signed : (n : ℤ) → in_i64 n ≡ true → parse_i64 (signed n) ≡ some n
unfolding parse_i64
parse_i64-signed (pos n) h =
    rw
      (unsigned_at (decimal n) n (decimal-ne-nil n) (decimal-IsDigits n) (read_number-decimal n), h)
      refl
parse_i64-signed (negsuc n) h = rw (read_number-decimal (suc n)) (ground arith)

pub parse_i64-in_i64 : (s : Bytes) (n : ℤ) → parse_i64 s ≡ some n → in_i64 n ≡ true
unfolding parse_i64
parse_i64-in_i64 [] n h = cc
parse_i64-in_i64 (b ∷ s) n h = ground arith
