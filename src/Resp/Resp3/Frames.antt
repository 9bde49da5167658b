-- ===== src/Resp/Resp3/Frames.antt =====
-- The writers of RESP3 against the plain format.
use flash_db.Base.{
  ℕ, ◌+◌, ◌≡◌, List, [], ◌∷◌, ◌++◌, append_assoc, Bytes, codes, length, length-append, arith,
}
use flash_db.Base.Int.{pos}
use flash_db.Resp.{crlf}
use flash_db.Resp.Number.Decimal.{decimal, write_usize-eq-decimal}
use flash_db.Pubsub.Frame.Lengths.{bulk}
use flash_db.Resp.Replies.{signed, write_bulk-eq-bulk, write_integer-eq-signed}
use flash_db.Resp.Resp3.{
  write_header, write_map_header, write_set_header, write_verbatim_string, write_hello_resp3,
}

write_header-eq-decimal :
    (type_byte : ℕ) (out : Bytes) (len : ℕ)
    → write_header type_byte out len ≡ out ++ type_byte ∷ (decimal len ++ crlf)
unfolding write_header
write_header-eq-decimal type_byte out len = simp (write_usize-eq-decimal, append_assoc)

-- A verbatim string is announced by the length of its encoding, its colon and its text together.
pub write_verbatim_string-eq-decimal :
    (out encoding s : Bytes)
    → let text = encoding ++ b':' ∷ s in
      write_verbatim_string out encoding s
      ≡ out ++ b'=' ∷ (decimal (length text) ++ (crlf ++ (text ++ crlf)))
unfolding write_verbatim_string
write_verbatim_string-eq-decimal out encoding s =
    let n : length (encoding ++ b':' ∷ s) ≡ length encoding + 1 + length s =
      omega (arith, length-append encoding (b':' ∷ s)) in
    rw n (simp (write_usize-eq-decimal, append_assoc))

-- A reply's fields, each with the bytes of its value.
abbrev pub fields : List (Bytes × Bytes) → Bytes
fields [] = []
fields ((name, value) ∷ rest) = bulk name ++ (value ++ fields rest)

abbrev pub hello_fields : List (Bytes × Bytes)
hello_fields =
    (codes "server", bulk (codes "fyrodb"))
    ∷ (codes "version", bulk (codes "0.1.0"))
    ∷ (codes "proto", b':' ∷ (signed (pos 3) ++ crlf))
    ∷ (codes "id", b':' ∷ (signed (pos 1) ++ crlf))
    ∷ (codes "mode", bulk (codes "standalone"))
    ∷ (codes "role", bulk (codes "master"))
    ∷ (codes "modules", b'~' ∷ (decimal 0 ++ crlf))
    ∷ []

-- HELLO 3 replies with a map that announces as many entries as it has fields, and writes each
-- field's name and value.
pub write_hello_resp3-eq-fields :
    (out : Bytes)
    → write_hello_resp3 out
      ≡ out ++ b'%' ∷ (decimal (length hello_fields) ++ (crlf ++ fields hello_fields))
unfolding write_hello_resp3 write_map_header write_set_header
write_hello_resp3-eq-fields out =
    simp (write_header-eq-decimal, write_bulk-eq-bulk, write_integer-eq-signed, append_assoc)
