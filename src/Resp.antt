-- ===== src/Resp.antt =====
-- src/utils/resp.rs: the RESP2 writers. A writer takes the buffer `out` and returns it.
pub mod Number
pub mod Replies
pub mod Resp3
mod Tests
use flash_db.Base.{
  ℕ, ◌+◌, ◌/◌, ◌%◌, Bool, true, false, Option, none, some, List, [], ◌∷◌, ◌++◌, Bytes, codes,
  length, ltb, ◌=ₛ◌, if◌then◌else◌,
}
use flash_db.Base.Int.{ℤ, pos, negsuc}
use flash_db.Resp.Number.{write_usize, write_i64}

abbrev pub crlf : Bytes
crlf = 13 ∷ 10 ∷ []

abbrev pub ok_reply : Bytes
ok_reply = codes "+OK\r\n"

abbrev pub nil_reply : Bytes
nil_reply = codes "$-1\r\n"

abbrev pub zero_reply : Bytes
zero_reply = codes ":0\r\n"

abbrev pub one_reply : Bytes
one_reply = codes ":1\r\n"

abbrev pub pong_reply : Bytes
pong_reply = codes "+PONG\r\n"

-- `INT_CACHE[n]`, for `n` below 10: the ten literals differ in their digit alone.
abbrev pub int_cache : ℕ → Bytes
int_cache n = b':' ∷ (b'0' + n) ∷ crlf

unfoldable pub write_ok : Bytes → Bytes
write_ok out = out ++ ok_reply

unfoldable pub write_pong : Bytes → Bytes
write_pong out = out ++ pong_reply

unfoldable pub write_nil : Bytes → Bytes
write_nil out = out ++ nil_reply

unfoldable pub write_bulk_bytes : Bytes → Bytes → Bytes
write_bulk_bytes out s =
    let len = length s in
    let head =
      if ltb len 10
      then (out ++ b'$' ∷ []) ++ (b'0' + len) ∷ crlf
      else if ltb len 100
      then (out ++ b'$' ∷ []) ++ (b'0' + len / 10) ∷ (b'0' + len % 10) ∷ crlf
      else write_usize (out ++ b'$' ∷ []) len ++ crlf in
    (head ++ s) ++ crlf

unfoldable pub write_bulk : Bytes → Bytes → Bytes
unfolding write_bulk_bytes
write_bulk out s = write_bulk_bytes out s

unfoldable pub write_integer : Bytes → ℤ → Bytes
write_integer out (pos n) =
    if ltb n 10 then out ++ int_cache n else write_i64 (out ++ b':' ∷ []) (pos n) ++ crlf
write_integer out (negsuc n) = write_i64 (out ++ b':' ∷ []) (negsuc n) ++ crlf

unfoldable pub write_boolean : Bytes → Bool → Bytes
write_boolean out b = out ++ (if b then one_reply else zero_reply)

unfoldable pub write_opt_bulk : Bytes → Option Bytes → Bytes
unfolding write_bulk write_nil
write_opt_bulk out (some s) = write_bulk out s
write_opt_bulk out none = write_nil out

unfoldable pub write_array_header : Bytes → ℕ → Bytes
write_array_header out len = write_usize (out ++ b'*' ∷ []) len ++ crlf

-- The loop of `write_array` over its items.
pub write_items : Bytes → List Bytes → Bytes
write_items out [] = out
write_items out (item ∷ items) = write_items (write_bulk out item) items

unfoldable pub write_array : Bytes → List Bytes → Bytes
unfolding write_array_header write_items
write_array out items = write_items (write_array_header out (length items)) items

pub write_opt_items : Bytes → List (Option Bytes) → Bytes
write_opt_items out [] = out
write_opt_items out (some s ∷ items) = write_opt_items (write_bulk out s) items
write_opt_items out (none ∷ items) = write_opt_items (write_nil out) items

unfoldable pub write_opt_array : Bytes → List (Option Bytes) → Bytes
unfolding write_array_header write_opt_items
write_opt_array out items = write_opt_items (write_array_header out (length items)) items

unfoldable pub write_err : Bytes → Bytes → Bytes
write_err out msg = ((out ++ codes "-ERR ") ++ msg) ++ crlf

unfoldable pub write_wrong_type : Bytes → Bytes
write_wrong_type out =
    out ++ codes "-WRONGTYPE Operation against a key holding the wrong kind of value\r\n"

unfoldable pub write_store_err : Bytes → Bytes → Bytes
unfolding write_wrong_type write_err
write_store_err out err =
    if err =ₛ codes "WRONGTYPE" then write_wrong_type out else write_err out err

unfoldable pub write_wrong_args : Bytes → Bytes → Bytes
write_wrong_args out cmd =
    ((out ++ codes "-ERR wrong number of arguments for '") ++ cmd) ++ codes "' command\r\n"

unfoldable pub write_simple : Bytes → Bytes → Bytes
write_simple out s = ((out ++ b'+' ∷ []) ++ s) ++ crlf
