-- ===== src/Parser.antt =====
-- src/utils/parser.rs: the incremental parser of commands, on its buffer and two positions.
pub mod Number
pub mod Scan
pub mod Bounds
pub mod Line
pub mod Loop
pub mod RoundTrip
pub mod Dangling
pub mod Fill
mod Tests
use flash_db.Base.{
  ℕ, zero, suc, ◌+◌, ◌-◌, ◌*◌, ◌^◌, ◌<◌, ◌≡◌, ◌≢◌, Bool, true, false, not, ◌&&◌, ◌||◌, Option, none,
  some, List, [], ◌∷◌, ◌++◌, Bytes, length, take, drop, replicate, get_elem?, ltb, leb, ◌==◌,
  if◌then◌else◌,
}
use flash_db.Util.Glob.{Lacks}

-- `memchr::memchr`, a crate: the first index of a byte in a slice.
pub record Memchr : Type 0 where
  pub find : ℕ → Bytes → Option ℕ
  pub find_first : (b : ℕ) (s t : Bytes) → Lacks b s → find b (s ++ b ∷ t) ≡ some (length s)
  pub find_missing : (b : ℕ) (s : Bytes) → Lacks b s → find b s ≡ none

pub record RespParser : Type 0 where
  pub rbuf : Bytes
  pub filled : ℕ
  pub pos : ℕ
  pub wbuf : Bytes
  -- a pointer into `rbuf` is its offset there
  pub parts_raw : List (ℕ × ℕ)

-- `panic` is a slice whose start lies behind its end, which `parse_one` does not exclude.
pub data ParseResult : Type 0 where
  complete incomplete error panic : ParseResult

abbrev pub max_array_elements : ℕ
max_array_elements = 1024

abbrev pub max_bulk_bytes : ℕ
max_bulk_bytes = 512 * 1024 * 1024

-- `RespParser::new` of `Default`
pub new : RespParser
new = record { rbuf = replicate (2 * 1024) 0; filled = 0; pos = 0; wbuf = []; parts_raw = [] }

-- `copy_within(self.pos..self.filled, 0)`: the bytes behind the copy stay.
unfoldable pub compacted : RespParser → RespParser
compacted r =
    let kept = take (r.filled - r.pos) (drop r.pos r.rbuf) in
    if ltb 0 r.pos
    then record r {
      rbuf = kept ++ drop (r.filled - r.pos) r.rbuf;
      filled = r.filled - r.pos;
      pos = 0;
    }
    else r

unfoldable pub grown : RespParser → RespParser
grown r =
    if ltb (length r.rbuf - r.filled) 1024
    then record r { rbuf = r.rbuf ++ replicate (length r.rbuf) 0 }
    else r

-- The new state; the slice that is returned is `rbuf` from `filled` on.
unfoldable pub read_buf : RespParser → RespParser
read_buf r = if ltb (length r.rbuf - r.filled) 1024 then grown (compacted r) else r

-- `did_fill` after the socket has written `data_` into the slice.
unfoldable pub did_fill : RespParser → ℕ → RespParser
did_fill r n = record r { filled = r.filled + n }

pub is_ascii_digit : ℕ → Bool
is_ascii_digit b = leb b'0' b && leb b b'9'

-- The loop for at most three bytes.
pub parse_short : ℕ → Bytes → Option ℕ
parse_short n [] = some n
parse_short n (b ∷ s) =
    let rest = parse_short (n * 10 + (b - b'0')) s in if is_ascii_digit b then rest else none

-- The loop for longer texts: `checked_mul`, `checked_add`, and the bound in each round.
pub parse_long : ℕ → ℕ → Bytes → Option ℕ
parse_long max_ n [] = some n
parse_long max_ n (b ∷ s) =
    let next = n * 10 + (b - b'0') in
    let rest = parse_long max_ next s in
    if not (is_ascii_digit b)
    then none
    else if leb (2 ^ 64) (n * 10)
    then none
    else if leb (2 ^ 64) next
    then none
    else if ltb max_ next
    then none
    else rest

pub at_most : ℕ → Option ℕ → Option ℕ
at_most max_ none = none
at_most max_ (some n) = if ltb max_ n then none else some n

unfoldable pub parse_usize : Bytes → ℕ → Option ℕ
unfolding parse_short parse_long at_most is_ascii_digit
parse_usize [] max_ = none
parse_usize (b ∷ s) max_ =
    if leb (length (b ∷ s)) 3
    then at_most max_ (parse_short 0 (b ∷ s))
    else parse_long max_ 0 (b ∷ s)

abbrev pub slice : Bytes → ℕ → ℕ → Bytes
slice s from until = take (until - from) (drop from s)

-- The block at the end: an oversized buffer is cut after a full drain.
unfoldable pub shrink : RespParser → RespParser
shrink r =
    if (r.pos == r.filled) && ltb (16 * 1024) (length r.rbuf)
    then record r { rbuf = take (2 * 1024) r.rbuf; filled = 0; pos = 0 }
    else r

unfoldable pub finish : ParseResult × RespParser → ParseResult × RespParser
finish (complete, r) = (complete, shrink r)
finish (incomplete, r) = (incomplete, r)
finish (error, r) = (error, r)
finish (panic, r) = (panic, r)

-- The outcome of a header line `sigil number`, as at the start of a command and of each of its parts.
pub data Header : Type 0 where
  stop : ParseResult → RespParser → Header
  number : ℕ → RespParser → Header

-- The tests on a line that was found. The slice behind the sigil starts behind its end if the line is
-- the sigil and a bare newline.
unfoldable pub after_line : ℕ → ℕ → ℕ × ℕ × RespParser → Header
after_line sigil max_ (s, e, r) = elim (get_elem? r.rbuf s) [
  | none ↦ stop error r
  | some b ↦
      let size = parse_usize (slice r.rbuf (s + 1) e) max_ in
      if not (b == sigil)
      then stop error r
      else if ltb e (s + 1)
      then stop panic r
      else elim size [ none ↦ stop error r | some n ↦ number n r ]
]

-- One round of the `for` loop behind its header; `next` is the rest of the loop. A part is pushed as
-- its offset and length.
unfoldable pub after_bulk :
    (RespParser → ParseResult × RespParser) → ℕ → Header → ParseResult × RespParser
after_bulk next start_pos (stop res r) = (res, r)
after_bulk next start_pos (number len r) =
    if ltb (r.filled - r.pos) (len + 2)
    then (incomplete, record r { pos = start_pos })
    else next (record r { pos = r.pos + (len + 2); parts_raw = r.parts_raw ++ (r.pos, len) ∷ [] })

module _ (m : Memchr) where
  -- The ends of the line and the state behind it.
  unfoldable pub scan_line : RespParser → Option (ℕ × ℕ × RespParser)
  scan_line r = elim (m.find 10 (slice r.rbuf r.pos r.filled)) [
    | none ↦ none
    | some rel ↦
        let nl = r.pos + rel in
        some (r.pos, (if ltb r.pos nl then nl - 1 else nl), record r { pos = nl + 1 })
  ]

  unfoldable pub header : ℕ → ℕ → ℕ → RespParser → Header
  header sigil max_ start_pos r = elim (scan_line r) [
    | none ↦ stop incomplete (record r { pos = start_pos })
    | some line ↦ after_line sigil max_ line
  ]

  unfoldable pub bulks_loop : ℕ → ℕ → RespParser → ParseResult × RespParser
  bulks_loop zero start_pos r = (complete, r)
  bulks_loop (suc count) start_pos r =
      after_bulk (bulks_loop count start_pos) start_pos (header b'$' max_bulk_bytes start_pos r)

  unfoldable pub after_count : ℕ → Header → ParseResult × RespParser
  after_count start_pos (stop res r) = (res, r)
  after_count start_pos (number count r) = finish (bulks_loop count start_pos r)

  unfoldable pub parse_one : RespParser → ParseResult × RespParser
  parse_one r0 =
      after_count r0.pos (header b'*' max_array_elements r0.pos (record r0 { parts_raw = [] }))
