-- ===== src/Resp/Number.antt =====
-- src/utils/resp.rs: `write_usize` and `write_i64`. A writer takes the buffer and returns it.
pub mod Decimal
pub mod Parse
use flash_db.Base.{
  ℕ, zero, suc, ◌+◌, ◌/◌, ◌%◌, ◌++◌, [], ◌∷◌, reverse, Bytes, length, take, drop, ◌==◌,
  if◌then◌else◌,
}
use flash_db.Base.Int.{ℤ, pos, negsuc}

-- `while n > 0 { out.push(b'0' + n % 10); n /= 10 }`; `n` rounds are enough.
pub push_digits : ℕ → ℕ → Bytes → Bytes
push_digits zero n out = out
push_digits (suc f) n out =
    let rest = push_digits f (n / 10) (out ++ (b'0' + n % 10) ∷ []) in if n == 0 then out else rest

-- `out[start..].reverse()`
pub reverse_from : ℕ → Bytes → Bytes
reverse_from start out = take start out ++ reverse (drop start out)

unfoldable pub write_usize : Bytes → ℕ → Bytes
unfolding push_digits reverse_from
write_usize out n =
    if n == 0 then out ++ b'0' ∷ [] else reverse_from (length out) (push_digits n n out)

-- The `loop` for a negative number, on its absolute value: it pushes before it tests.
pub push_negative : ℕ → ℕ → Bytes → Bytes
push_negative zero n out = out
push_negative (suc f) n out =
    let more = out ++ (b'0' + n % 10) ∷ [] in
    let rest = push_negative f (n / 10) more in if n / 10 == 0 then more else rest

unfoldable pub write_i64 : Bytes → ℤ → Bytes
unfolding write_usize push_negative
write_i64 out (pos n) = write_usize out n
write_i64 out (negsuc n) =
    let signed = out ++ b'-' ∷ [] in
    reverse_from (length signed) (push_negative (suc n) (suc n) signed)
