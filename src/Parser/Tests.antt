-- ===== src/Parser/Tests.antt =====
-- The theorems on the parser at small commands, with a linear search for `memchr`.
use flash_db.Base.{
  ℕ, suc, ◌+◌, ◌*◌, ◌≤◌, ◌≡◌, refl, ap, Option, none, some, List, [], ◌∷◌, ◌++◌, Bytes, codes,
  length, replicate, ◌==◌, if◌then◌else◌, length-append, length-replicate, arith,
}
use flash_db.Util.Glob.{Lacks}
use flash_db.Resp.{write_array}
use flash_db.Resp.Number.Decimal.{decimal}
use flash_db.Resp.Replies.{write_array-eq-command}
use flash_db.Parser.{
  Memchr, RespParser, complete, panic, parse_one, parse_usize, max_array_elements,
}
use flash_db.Parser.Number.{bounded_value, parse_usize-eq-bounded_value}
use flash_db.Parser.RoundTrip.{contents, parse_one-write_array}
use flash_db.Parser.Fill.{parse_one_bare_newline}

index_of : ℕ → Bytes → Option ℕ
index_of b [] = none
index_of b (c ∷ s) =
    if c == b then some 0 else elim (index_of b s) [ none ↦ none | some i ↦ some (suc i) ]

index_of_first : (b : ℕ) (s t : Bytes) → Lacks b s → index_of b (s ++ b ∷ t) ≡ some (length s)
unfolding index_of
index_of_first b [] t h = ground arith
index_of_first b (c ∷ s) t h = ground (arith, index_of_first b s t h.1)

index_of_missing : (b : ℕ) (s : Bytes) → Lacks b s → index_of b s ≡ none
unfolding index_of
index_of_missing b [] h = refl
index_of_missing b (c ∷ s) h = ground (arith, index_of_missing b s h.1)

abbrev linear : Memchr
linear = record { find = index_of; find_first = index_of_first; find_missing = index_of_missing }

abbrev ping : List Bytes
ping = codes "PING" ∷ []

abbrev frame : Bytes
frame = codes "*1\r\n$4\r\nPING\r\n"

abbrev received : RespParser
received = record {
  rbuf = write_array [] ping ++ replicate 40 0;
  filled = length (write_array [] ping);
  pos = 0;
  wbuf = [];
  parts_raw = [];
}

written : write_array [] ping ≡ frame
unfolding flash_db.Resp.Number.Decimal.decimal flash_db.Resp.Number.Decimal.low_digits
written = write_array-eq-command [] ping

parse_usize-eq-bounded_value_example :
    parse_usize (codes "1025") max_array_elements ≡ bounded_value 1024 (codes "1025")
parse_usize-eq-bounded_value_example =
    parse_usize-eq-bounded_value (codes "1025") 1024 (omega arith)

received_small : length (write_array [] ping ++ replicate 40 0) ≤ 16 * 1024
received_small = omega (
  arith,
  length-append (write_array [] ping) (replicate 40 0),
  length-replicate 40 (let z : ℕ = 0 in z),
  ap length written,
)

parse_one-write_array_example :
    ((parse_one linear received).0 ≡ complete)
    × (contents (parse_one linear received).1.rbuf (parse_one linear received).1.parts_raw ≡ ping)
    × ((parse_one linear received).1.pos ≡ 0 + length (write_array [] ping))
    × ((parse_one linear received).1.rbuf ≡ received.rbuf)
    × ((parse_one linear received).1.filled ≡ received.filled)
parse_one-write_array_example =
    parse_one-write_array linear received [] (replicate 40 0) ping 0 (omega arith) (omega arith, tt)
      refl refl (omega arith) received_small

abbrev bare : RespParser
bare = record { rbuf = codes "*\n$4\r\nPING\r\n"; filled = 14; pos = 0; wbuf = []; parts_raw = [] }

parse_one_bare_newline_example : (parse_one linear bare).0 ≡ panic
parse_one_bare_newline_example =
    parse_one_bare_newline linear bare [] (codes "$4\r\nPING\r\n") refl refl (omega arith)

abbrev long : List Bytes
long = replicate 2100 b'a' ∷ []

abbrev zeros : Bytes
zeros = replicate 15000 0

abbrev oversized : RespParser
oversized = record {
  rbuf = write_array [] long ++ zeros;
  filled = length (write_array [] long);
  pos = 0;
  wbuf = [];
  parts_raw = [];
}
