-- ===== src/Parser/Number.antt =====
-- `parse_usize`: its two loops compute one function, and it reads back what `write_usize` writes.
use flash_db.Base.{
  ℕ, ◌+◌, ◌-◌, ◌*◌, ◌^◌, ◌≤◌, ◌≡◌, ◌≢◌, refl, inl, inr, Bool, true, ◌&&◌, Option, none, some, [],
  ◌∷◌, Bytes, length, leb, if◌then◌else◌, Bool-cases, arith,
}
use flash_db.Resp.Number.Decimal.{
  decimal, IsDigits, decimal-IsDigits, value_from, value_from-decimal, decimal-ne-nil,
}
use flash_db.Parser.{is_ascii_digit, parse_short, parse_long, parse_usize}

abbrev pub all_digits : Bytes → Bool
all_digits [] = true
all_digits (b ∷ s) = is_ascii_digit b && all_digits s

-- What a length or count reads as: a nonempty text of digits whose value is at most the bound.
abbrev pub bounded_value : ℕ → Bytes → Option ℕ
bounded_value bound [] = none
bounded_value bound (b ∷ s) =
    if all_digits (b ∷ s)
    then (if leb (value_from 0 (b ∷ s)) bound then some (value_from 0 (b ∷ s)) else none)
    else none

value_from_mono : (n : ℕ) (s : Bytes) → n ≤ value_from n s
value_from_mono n [] = omega arith
value_from_mono n (b ∷ s) = omega (arith, value_from_mono (n * 10 + (b - b'0')) s)

short_lem :
    (n : ℕ) (s : Bytes) → parse_short n s ≡ (if all_digits s then some (value_from n s) else none)
unfolding parse_short
short_lem n [] = refl
short_lem n (b ∷ s) = ground (arith, short_lem (n * 10 + (b - b'0')) s)

long_lem :
    (bound n : ℕ) (s : Bytes)
    → n ≤ bound
    → bound * 10 + 10 ≤ 2 ^ 64
    → parse_long bound n s ≡ (
        if all_digits s
        then (if leb (value_from n s) bound then some (value_from n s) else none)
        else none)
unfolding parse_long is_ascii_digit
long_lem bound n [] h k = ground arith
long_lem bound n (b ∷ s) h k =
    ground (arith, long_lem bound (n * 10 + (b - b'0')) s, value_from_mono (n * 10 + (b - b'0')) s)

-- For a bound that leaves room for one more digit in 64 bits, `parse_usize` returns exactly the
-- nonempty texts of digits whose value is at most the bound: its two loops agree.
pub parse_usize-eq-bounded_value :
    (s : Bytes) (bound : ℕ) → bound * 10 + 10 ≤ 2 ^ 64 → parse_usize s bound ≡ bounded_value bound s
unfolding parse_usize
parse_usize-eq-bounded_value [] bound k = refl
parse_usize-eq-bounded_value (b ∷ s) bound k = elim (Bool-cases (leb (length (b ∷ s)) 3)) [
  | inl e ↦ rw e (rw (short_lem 0 (b ∷ s)) (ground arith))
  | inr e ↦ rw e (long_lem bound 0 (b ∷ s) (omega arith) k)
]

all_digits_lem : (s : Bytes) → IsDigits s → all_digits s ≡ true
unfolding is_ascii_digit
all_digits_lem [] h = refl
all_digits_lem (b ∷ s) h = ground (arith, all_digits_lem s)

-- The decimal text of a number within the bound is read back by `parse_usize`.
pub parse_usize-decimal :
    (n bound : ℕ) → n ≤ bound → bound * 10 + 10 ≤ 2 ^ 64 → parse_usize (decimal n) bound ≡ some n
parse_usize-decimal n bound h k =
    rw (parse_usize-eq-bounded_value (decimal n) bound k)
      (go (decimal n) (decimal-ne-nil n) (decimal-IsDigits n) (value_from-decimal n))
  where
    go : (s : Bytes) → s ≢ [] → IsDigits s → value_from 0 s ≡ n → bounded_value bound s ≡ some n
    go [] ne ds v = absurd (ne refl)
    go (b ∷ s) ne ds v = rw (all_digits_lem (b ∷ s) ds, v) (ground arith)
