-- ===== src/Resp/Number/Parse.antt =====
-- The numbers that the standard library's `str::parse` reads, and `checked_add` on i64.
pub mod RoundTrip
use flash_db.Base.{
  ℕ, suc, ◌+◌, ◌-◌, ◌*◌, ◌^◌, Bool, ◌&&◌, Option, none, some, [], ◌∷◌, Bytes, ◌==◌, ltb, leb,
  if◌then◌else◌,
}
use flash_db.Base.Int.{ℤ, pos, negsuc}

-- `str::parse::<i64>`: a sign or none, and at least one digit.
unfoldable pub read_digits : ℕ → Bytes → Option ℕ
read_digits n [] = some n
read_digits n (b ∷ s) =
    let rest = read_digits (n * 10 + (b - b'0')) s in
    if leb b'0' b && leb b b'9' then rest else none

unfoldable pub read_number : Bytes → Option ℕ
read_number [] = none
read_number (b ∷ s) = read_digits 0 (b ∷ s)

abbrev pub negate : ℕ → ℤ
negate n = if n == 0 then pos 0 else negsuc (n - 1)

abbrev pub in_i64 : ℤ → Bool
in_i64 (pos n) = ltb n (2 ^ 63)
in_i64 (negsuc n) = ltb n (2 ^ 63)

abbrev pub checked_i64 : ℤ → Option ℤ
checked_i64 n = if in_i64 n then some n else none

unfoldable pub parse_i64 : Bytes → Option ℤ
parse_i64 [] = none
parse_i64 (b ∷ s) =
    if b == b'-'
    then (elim (read_number s) [ none ↦ none | some n ↦ checked_i64 (negate n) ])
    else if b == b'+'
    then (elim (read_number s) [ none ↦ none | some n ↦ checked_i64 (pos n) ])
    else (elim (read_number (b ∷ s)) [ none ↦ none | some n ↦ checked_i64 (pos n) ])
