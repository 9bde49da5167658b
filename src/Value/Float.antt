-- ===== src/Value/Float.antt =====
-- The language's f64: a number is its 64 bits. Comparisons are exact on them; sums, products and the
-- distance of two numbers round, and are the record `Rounding`.
use flash_db.Base.{ℕ, ◌*◌, ◌%◌, ◌^◌, Bool, not, ◌&&◌, ◌||◌, ltb, if◌then◌else◌}
use flash_db.Base.Int.{ℤ, pos, ltb_ℤ, eqb_ℤ}
use flash_db.Resp.Number.Parse.{negate}

abbrev pub F64 : Type 0
F64 = ℕ

-- The exponent is full and the fraction is not 0.
unfoldable pub is_nan : F64 → Bool
is_nan a = ltb (0x7ff * 2 ^ 52) (a % 2 ^ 63)

-- Of two numbers, neither a NaN, the lower one has the lower key; both zeros have the key 0.
unfoldable pub key : F64 → ℤ
key a = if ltb a (2 ^ 63) then pos (a % 2 ^ 63) else negate (a % 2 ^ 63)

-- `a < b`, `a == b` and `a <= b`, which are false on a NaN.
unfoldable pub lt : F64 → F64 → Bool
lt a b = not (is_nan a) && (not (is_nan b) && ltb_ℤ (key a) (key b))

unfoldable pub eq : F64 → F64 → Bool
eq a b = not (is_nan a) && (not (is_nan b) && eqb_ℤ (key a) (key b))

abbrev pub le : F64 → F64 → Bool
le a b = lt a b || eq a b

-- `a + b`, `a * b`, `(a - b).abs() > f64::EPSILON`, `a.min(b)` and `a.max(b)`.
pub record Rounding : Type 0 where
  pub add : F64 → F64 → F64
  pub mul : F64 → F64 → F64
  pub far : F64 → F64 → Bool
  pub min_of : F64 → F64 → F64
  pub max_of : F64 → F64 → F64
