-- ===== src/Pubsub/Frame/Lengths.antt =====
-- The frames written out, and the room that `encode_message` and `encode_pmessage` reserve for them.
use flash_db.Base.{
  ℕ, zero, suc, ◌+◌, ◌/◌, ◌≡◌, refl, ◌∙◌, ◌∷◌, ◌++◌, append_assoc, Bytes, codes, length,
  length-append, length-reverse, arith,
}
use flash_db.Resp.{crlf}
use flash_db.Resp.Number.{write_usize}
use flash_db.Resp.Number.Decimal.{low_digits, decimal, write_usize-eq-decimal}
use flash_db.Pubsub.Frame.{
  push_usize, bulk_into, int_len_loop, resp_int_len, message_total, encode_message, pmessage_total,
  encode_pmessage,
}

push_usize-write_usize : (out : Bytes) (n : ℕ) → push_usize out n ≡ write_usize out n
unfolding push_usize write_usize
push_usize-write_usize out n = refl

pub push_usize-eq-decimal : (out : Bytes) (n : ℕ) → push_usize out n ≡ out ++ decimal n
push_usize-eq-decimal out n = push_usize-write_usize out n ∙ write_usize-eq-decimal out n

-- A bulk string of RESP.
abbrev pub bulk : Bytes → Bytes
bulk s = b'$' ∷ (decimal (length s) ++ (crlf ++ (s ++ crlf)))

pub bulk_into-eq-bulk : (out b : Bytes) → bulk_into out b ≡ out ++ bulk b
unfolding bulk_into
bulk_into-eq-bulk out b = simp (push_usize-eq-decimal, append_assoc)

int_len_loop-low_digits : (f n len : ℕ) → int_len_loop f n len ≡ len + length (low_digits f n)
unfolding int_len_loop low_digits
int_len_loop-low_digits zero n len = omega arith
int_len_loop-low_digits (suc f) n len = ground (arith, int_len_loop-low_digits f (n / 10) (len + 1))

pub length-decimal : (n : ℕ) → length (decimal n) ≡ resp_int_len n
unfolding decimal resp_int_len
length-decimal n = ground (arith, int_len_loop-low_digits n n 0, length-reverse (low_digits n n))

bulk_room : Bytes → ℕ
bulk_room b = 1 + resp_int_len (length b) + 2 + length b + 2

length-bulk_into : (out b : Bytes) → length (bulk_into out b) ≡ length out + bulk_room b
unfolding bulk_room
length-bulk_into out b = rw bulk_into-eq-bulk (
    omega (
      arith,
      length-append out (bulk b),
      length-append (decimal (length b)) (crlf ++ (b ++ crlf)),
      length-append b crlf,
      length-decimal (length b),
    ))

-- The frame of a message is two bytes longer than the room that `encode_message` reserves for it.
length-encode_message :
    (channel message : Bytes)
    → length (encode_message channel message) ≡ message_total channel message + 2
unfolding encode_message message_total bulk_room
length-encode_message channel message =
    let head = codes "*3\r\n$7\r\nmessage\r\n" in
    omega (arith, length-bulk_into (bulk_into head channel) message, length-bulk_into head channel)

-- The frame of a pattern message is one byte longer than the room that `encode_pmessage` reserves
-- for it.
length-encode_pmessage :
    (pattern_ channel message : Bytes)
    → length (encode_pmessage pattern_ channel message)
      ≡ pmessage_total pattern_ channel message + 1
unfolding encode_pmessage pmessage_total bulk_room
length-encode_pmessage pattern_ channel message =
    let head = codes "*4\r\n$8\r\npmessage\r\n" in
    omega (
      arith,
      length-bulk_into (bulk_into (bulk_into head pattern_) channel) message,
      length-bulk_into (bulk_into head pattern_) channel,
      length-bulk_into head pattern_,
    )

-- The frame of a message is two bytes longer than the room that `encode_message` reserves for it,
-- and the frame of a pattern message one byte longer than the room that `encode_pmessage` reserves.
pub frame_rooms :
    (pattern_ channel message : Bytes)
    → (length (encode_message channel message) ≡ message_total channel message + 2)
      × (length (encode_pmessage pattern_ channel message)
          ≡ pmessage_total pattern_ channel message + 1)
frame_rooms pattern_ channel message =
    (length-encode_message channel message, length-encode_pmessage pattern_ channel message)
