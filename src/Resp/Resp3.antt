-- ===== src/Resp/Resp3.antt =====
-- src/utils/resp3.rs: the writers of RESP3, less `write_double`, which prints a float. `out` is a byte
-- string, which each of them extends.
pub mod Frames
use flash_db.Base.{
  ℕ, ◌+◌, Bool, true, false, List, [], ◌∷◌, ◌++◌, Bytes, codes, length, if◌then◌else◌,
}
use flash_db.Base.Int.{ℤ, pos}
use flash_db.Resp
use flash_db.Resp.{crlf, write_bulk}
use flash_db.Resp.Number.{write_usize}

unfoldable pub write_null : Bytes → Bytes
write_null out = out ++ codes "_\r\n"

unfoldable pub write_boolean_r3 : Bytes → Bool → Bytes
write_boolean_r3 out b = out ++ (if b then codes "#t\r\n" else codes "#f\r\n")

unfoldable pub write_big_number : Bytes → Bytes → Bytes
write_big_number out n = ((out ++ b'(' ∷ []) ++ n) ++ crlf

unfoldable pub write_verbatim_string : Bytes → Bytes → Bytes → Bytes
write_verbatim_string out encoding s =
    let total_len = length encoding + 1 + length s in
    let head = write_usize (out ++ b'=' ∷ []) total_len ++ crlf in
    ((head ++ encoding ++ b':' ∷ []) ++ s) ++ crlf

-- The header of an aggregate: its type's byte, then the number of its elements.
unfoldable pub write_header : ℕ → Bytes → ℕ → Bytes
write_header type_byte out len = write_usize (out ++ type_byte ∷ []) len ++ crlf

unfoldable pub write_map_header : Bytes → ℕ → Bytes
write_map_header = write_header b'%'

unfoldable pub write_set_header : Bytes → ℕ → Bytes
write_set_header = write_header b'~'

unfoldable pub write_push_header : Bytes → ℕ → Bytes
write_push_header = write_header b'>'

unfoldable pub write_attribute_header : Bytes → ℕ → Bytes
write_attribute_header = write_header b'|'

unfoldable pub write_integer : Bytes → ℤ → Bytes
write_integer out n = Resp.write_integer out n

unfoldable pub write_hello_resp3 : Bytes → Bytes
write_hello_resp3 out0 =
    let out1 =
      write_bulk (write_bulk (write_map_header out0 7) (codes "server")) (codes "fyrodb") in
    let out2 = write_bulk (write_bulk out1 (codes "version")) (codes "0.1.0") in
    let out3 = Resp.write_integer (write_bulk out2 (codes "proto")) (pos 3) in
    let out4 = Resp.write_integer (write_bulk out3 (codes "id")) (pos 1) in
    let out5 = write_bulk (write_bulk out4 (codes "mode")) (codes "standalone") in
    let out6 = write_bulk (write_bulk out5 (codes "role")) (codes "master") in
    write_set_header (write_bulk out6 (codes "modules")) 0
