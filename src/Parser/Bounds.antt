-- ===== src/Parser/Bounds.antt =====
-- What `parse_one` keeps: the positions stay inside the buffer, the offsets and lengths that it hands
-- out are spans of the filled part, and a command that is not complete is left for the next call.
use flash_db.Base.{ℕ, ◌+◌, ◌≤◌, ◌≡◌, List, [], ◌∷◌, length}
use flash_db.Parser.{RespParser, ParseResult, complete, incomplete, error, panic}

abbrev pub IsValid : RespParser → Type 0
IsValid r = (r.pos ≤ r.filled) × (r.filled ≤ length r.rbuf)

-- Every part lies before `until`, with its CRLF.
abbrev pub Within : ℕ → List (ℕ × ℕ) → Type 0
Within until [] = Unit
Within until ((offset, len) ∷ parts) = (offset + len + 2 ≤ until) × Within until parts

-- Buffer, fill level and output are those of `r`.
abbrev pub Kept : RespParser → RespParser → Type 0
Kept r r' = (r'.rbuf ≡ r.rbuf) × (r'.filled ≡ r.filled) × (r'.wbuf ≡ r.wbuf)

abbrev pub LoopPost : RespParser → ℕ → ParseResult × RespParser → Type 0
LoopPost r start_pos (complete, r') =
    Kept r r' × (r.pos ≤ r'.pos) × (r'.pos ≤ r.filled) × Within r'.pos r'.parts_raw
LoopPost r start_pos (incomplete, r') = Kept r r' × (r'.pos ≡ start_pos)
LoopPost r start_pos (error, r') = Kept r r'
LoopPost r start_pos (panic, r') = Kept r r'

-- What `parse_one` leaves: a command that is not complete costs nothing, and the positions stay inside
-- the buffer.
abbrev pub ParsePost : RespParser → ParseResult × RespParser → Type 0
ParsePost r (complete, r') = IsValid r'
ParsePost r (incomplete, r') = Kept r r' × (r'.pos ≡ r.pos)
ParsePost r (error, r') = Kept r r'
ParsePost r (panic, r') = Kept r r'
