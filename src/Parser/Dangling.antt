-- ===== src/Parser/Dangling.antt =====
-- What becomes of the parts when `parse_one` cuts its buffer after a full drain.
use flash_db.Base.{ℕ, ◌+◌, ◌*◌, ◌≤◌, List, [], ◌∷◌, take}
use flash_db.Parser.{RespParser}

-- Every part lies in a buffer of `n` bytes.
abbrev pub InBuffer : ℕ → List (ℕ × ℕ) → Type 0
InBuffer n [] = Unit
InBuffer n ((offset, len) ∷ parts) = (offset + len ≤ n) × InBuffer n parts

abbrev cut : RespParser → RespParser
cut r = record r { rbuf = take (2 * 1024) r.rbuf; filled = 0; pos = 0 }
