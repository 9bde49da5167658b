-- ===== src/Commends.antt =====
-- src/commends/: a handler takes the parts of a command, acts on the store and writes its reply to `out`.
-- The macros are those of src/macros/cmd.rs.
pub mod Replies
pub mod Framing
pub mod Sets
use flash_db.Base.{
  ℕ, ◌-◌, ◌^◌, Bool, ◌&&◌, Option, none, some, [], ◌∷◌, map, Bytes, codes, ◌⊎◌, inl, inr, ltb, leb,
  ◌==◌, ◌=ₛ◌, if◌then◌else◌,
}
use flash_db.Base.Int.{ℤ, pos}
use flash_db.Resp.{write_wrong_type, write_err}
use flash_db.Resp.Number.Parse.{read_number, negate}
use flash_db.Store.{Result, ok, err, error_text}

-- `n as i64`
abbrev pub as_i64 : ℕ → ℤ
as_i64 n = if ltb n (2 ^ 63) then pos n else negate (2 ^ 64 - n)

-- `str::parse::<usize>`
abbrev pub checked_usize : Option ℕ → Option ℕ
checked_usize none = none
checked_usize (some n) = if ltb n (2 ^ 64) then some n else none

unfoldable pub parse_usize : Bytes → Option ℕ
parse_usize [] = none
parse_usize (b ∷ s) = checked_usize (if b == b'+' then read_number s else read_number (b ∷ s))

abbrev pub upper : ℕ → ℕ
upper b = if leb b'a' b && leb b b'z' then b - 32 else b

unfoldable pub eq_ignore_ascii_case : Bytes → Bytes → Bool
eq_ignore_ascii_case s t = map upper s =ₛ map upper t

-- `wt!` and `store_ok!`: the reply to a result, or to its error.
unfoldable pub wt : {A : Type 0} → Bytes → Result A → (A → Bytes) → Bytes
wt out (ok a) reply = reply a
wt out (err e) reply = write_wrong_type out

unfoldable pub store_ok : {A : Type 0} → Bytes → Result A → (A → Bytes) → Bytes
store_ok out (ok a) reply = reply a
store_ok out (err e) reply = write_err out (error_text e)

-- `parse_int!` at what the text parses to, and the early returns of an option loop.
unfoldable pub parse_int : {X A : Type 0} → X → Bytes → Option A → (A → X × Bytes) → X × Bytes
parse_int s out none next = (s, write_err out (codes "value is not an integer"))
parse_int s out (some n) next = next n

unfoldable pub with_options : {X A : Type 0} → X → Bytes → Bytes ⊎ A → (A → X × Bytes) → X × Bytes
with_options s out (inl message) next = (s, write_err out message)
with_options s out (inr options) next = next options
