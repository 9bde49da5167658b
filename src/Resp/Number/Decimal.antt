-- ===== src/Resp/Number/Decimal.antt =====
-- Decimal digits: what the loops of `write_usize` and `write_i64` produce.
use mathlib.Core.List.{reverse-append}
use flash_db.Base.{
  ℕ, zero, suc, ◌+◌, ◌-◌, ◌*◌, ◌/◌, ◌%◌, ◌≤◌, ◌<◌, ◌≡◌, ◌≢◌, refl, ap, inl, inr, [], ◌∷◌, ◌++◌,
  reverse, append_assoc, append-nil, Bytes, length, take-append, drop-append, ◌==◌, if◌then◌else◌,
  Bool-cases, arith,
}
use flash_db.Resp.Number.{push_digits, reverse_from, write_usize, push_negative}

-- The digits of a number, the last one first, and its decimal text.
unfoldable pub low_digits : ℕ → ℕ → Bytes
low_digits zero n = []
low_digits (suc f) n =
    let rest = low_digits f (n / 10) in if n == 0 then [] else (b'0' + n % 10) ∷ rest

unfoldable pub decimal : ℕ → Bytes
decimal n = if n == 0 then b'0' ∷ [] else reverse (low_digits n n)

pub push_digits-eq-low_digits :
    (f n : ℕ) (out : Bytes) → push_digits f n out ≡ out ++ low_digits f n
unfolding push_digits low_digits
push_digits-eq-low_digits zero n out = rw append-nil
push_digits-eq-low_digits (suc f) n out = ground (
  arith,
  push_digits-eq-low_digits f (n / 10) (out ++ (b'0' + n % 10) ∷ []),
  append-nil out,
  append_assoc out ((b'0' + n % 10) ∷ []) (low_digits f (n / 10)),
)

pub low_digits_zero : (f : ℕ) → low_digits f 0 ≡ []
unfolding low_digits
low_digits_zero zero = refl
low_digits_zero (suc f) = refl

pub push_negative-eq-low_digits :
    (f n : ℕ) (out : Bytes) → n ≤ f → 0 < n → push_negative f n out ≡ out ++ low_digits f n
unfolding push_negative low_digits
push_negative-eq-low_digits zero n out h p = absurd (omega arith)
push_negative-eq-low_digits (suc f) n out h p = ground (
  arith,
  low_digits_zero f,
  push_negative-eq-low_digits f (n / 10) (out ++ (b'0' + n % 10) ∷ []),
  append_assoc out ((b'0' + n % 10) ∷ []) (low_digits f (n / 10)),
)

pub reverse_from-append :
    (out ds : Bytes) → reverse_from (length out) (out ++ ds) ≡ out ++ reverse ds
unfolding reverse_from
reverse_from-append out ds = rw (take-append, drop-append)

pub write_usize-eq-decimal : (out : Bytes) (n : ℕ) → write_usize out n ≡ out ++ decimal n
unfolding write_usize decimal
write_usize-eq-decimal out n =
    ground (arith, push_digits-eq-low_digits n n out, reverse_from-append out (low_digits n n))

-- Every digit is one, so the text of a number lacks every byte that is no digit.
abbrev pub IsDigits : Bytes → Type 0
IsDigits [] = Unit
IsDigits (b ∷ s) = ((b'0' ≤ b) × (b ≤ b'9')) × IsDigits s

pub IsDigits-append : (s t : Bytes) → IsDigits s → IsDigits t → IsDigits (s ++ t)
IsDigits-append [] t h k = k
IsDigits-append (b ∷ s) t h k = (h.0, IsDigits-append s t h.1 k)

IsDigits-reverse : (s : Bytes) → IsDigits s → IsDigits (reverse s)
IsDigits-reverse [] h = tt
IsDigits-reverse (b ∷ s) h =
    rw (reverse-append (b ∷ []) s)
      (IsDigits-append (reverse s) (b ∷ []) (IsDigits-reverse s h.1) (h.0, tt))

low_digits-IsDigits : (f n : ℕ) → IsDigits (low_digits f n)
unfolding low_digits
low_digits-IsDigits zero n = tt
low_digits-IsDigits (suc f) n = ground (arith, low_digits-IsDigits f (n / 10))

pub decimal-IsDigits : (n : ℕ) → IsDigits (decimal n)
unfolding decimal
decimal-IsDigits n = ground (arith, IsDigits-reverse (low_digits n n) (low_digits-IsDigits n n))

-- The number that a text of digits stands for, read from the left behind `acc`.
abbrev pub value_from : ℕ → Bytes → ℕ
value_from acc [] = acc
value_from acc (b ∷ s) = value_from (acc * 10 + (b - b'0')) s

pub value_from-append :
    (acc : ℕ) (s t : Bytes) → value_from acc (s ++ t) ≡ value_from (value_from acc s) t
value_from-append acc [] t = refl
value_from-append acc (b ∷ s) t = value_from-append (acc * 10 + (b - b'0')) s t

value_from-low_digits : (f n : ℕ) → n ≤ f → value_from 0 (reverse (low_digits f n)) ≡ n
unfolding low_digits
value_from-low_digits zero n h = omega arith
value_from-low_digits (suc f) n h = elim (Bool-cases (n == 0)) [
  | inl e ↦ rw e (ground arith)
  | inr e ↦ rw e (
      rw (reverse-append ((b'0' + n % 10) ∷ []) (low_digits f (n / 10))) (
        rw (value_from-append 0 (reverse (low_digits f (n / 10))) ((b'0' + n % 10) ∷ []))
          (omega (arith, value_from-low_digits f (n / 10) (ground arith)))))
]

pub value_from-decimal : (n : ℕ) → value_from 0 (decimal n) ≡ n
unfolding decimal
value_from-decimal n = elim (Bool-cases (n == 0)) [
  | inl e ↦ rw e (ground arith)
  | inr e ↦ rw e (value_from-low_digits n n (omega arith))
]

pub decimal-ne-nil : (n : ℕ) → decimal n ≢ []
unfolding decimal
decimal-ne-nil n e = elim (Bool-cases (n == 0)) [
  | inl z ↦ ground arith
  | inr z ↦ ground (arith, value_from-low_digits n n, ap (value_from 0) e)
]
