-- ===== src/Pubsub/Frame.antt =====
-- src/pubsub/frame.rs: the frames that a publish writes. `Arc<[u8]>` is the bytes themselves.
pub mod Lengths
use flash_db.Base.{
  ℕ, zero, suc, ◌+◌, ◌/◌, ◌%◌, [], ◌∷◌, ◌++◌, Bytes, codes, length, ◌==◌, if◌then◌else◌,
}
use flash_db.Resp.{crlf}
use flash_db.Resp.Number.{push_digits, reverse_from}

unfoldable pub push_usize : Bytes → ℕ → Bytes
push_usize out n =
    if n == 0 then out ++ b'0' ∷ [] else reverse_from (length out) (push_digits n n out)

unfoldable pub bulk_into : Bytes → Bytes → Bytes
bulk_into out b = ((push_usize (out ++ b'$' ∷ []) (length b) ++ crlf) ++ b) ++ crlf

-- `while n > 0 { len += 1; n /= 10 }`; `n` rounds are enough.
pub int_len_loop : ℕ → ℕ → ℕ → ℕ
int_len_loop zero n len = len
int_len_loop (suc f) n len =
    let rest = int_len_loop f (n / 10) (len + 1) in if n == 0 then len else rest

unfoldable pub resp_int_len : ℕ → ℕ
unfolding int_len_loop
resp_int_len n = if n == 0 then 1 else int_len_loop n n 0

-- The capacity that `encode_message` reserves.
unfoldable pub message_total : Bytes → Bytes → ℕ
message_total channel message =
    let ch_len = length channel in
    let msg_len = length message in
    15 + 1 + resp_int_len ch_len + 2 + ch_len + 2 + 1 + resp_int_len msg_len + 2 + msg_len + 2

unfoldable pub encode_message : Bytes → Bytes → Bytes
encode_message channel message =
    bulk_into (bulk_into (codes "*3\r\n$7\r\nmessage\r\n") channel) message

unfoldable pub pmessage_total : Bytes → Bytes → Bytes → ℕ
pmessage_total pattern_ channel message =
    let pat_len = length pattern_ in
    let ch_len = length channel in
    let msg_len = length message in
    17
    + 1
    + resp_int_len pat_len
    + 2
    + pat_len
    + 2
    + 1
    + resp_int_len ch_len
    + 2
    + ch_len
    + 2
    + 1
    + resp_int_len msg_len
    + 2
    + msg_len
    + 2

unfoldable pub encode_pmessage : Bytes → Bytes → Bytes → Bytes
encode_pmessage pattern_ channel message =
    bulk_into (bulk_into (bulk_into (codes "*4\r\n$8\r\npmessage\r\n") pattern_) channel) message

unfoldable pub encode_sub_reply : Bytes → Bytes → ℕ → Bytes
encode_sub_reply kind channel count =
    push_usize (bulk_into (bulk_into (codes "*3\r\n") kind) channel ++ b':' ∷ []) count ++ crlf
