-- ===== src/Store/Bitmaps/Bits.antt =====
-- The bits of a byte, checked at every byte, and the bytes of a string.
use flash_db.Base.{
  Bool-cases, inl, inr, ◌≤◌, length-append, length-replicate, ℕ, zero, suc, ◌-◌, ◌<◌, ◌≡◌, refl, ap,
  ◌∙◌, Bool, true, false, ◌≤◌, [], ◌∷◌, ◌++◌, Bytes, length, length-append, length-replicate,
  replicate, ◌==◌, ==_iff, if◌then◌else◌, arith,
}
use flash_db.Store.Bitmaps.{bit_of, with_bit, byte_at, at_byte, ensure_len}

-- A test of every number below a bound, which the kernel evaluates.
passes : (ℕ → Bool) → ℕ → Bool
passes test zero = true
passes test (suc bound) = if test bound then passes test bound else false

from_passes : (test : ℕ → Bool) (bound i : ℕ) → i < bound → passes test bound ≡ true → test i ≡ true
unfolding passes
from_passes test zero i below h = absurd (omega (arith, below))
from_passes test (suc bound) i below h = elim (Bool-cases (test bound)) [
  | inl t ↦
      let below_bound : i < bound → test i ≡ true = λ k. from_passes test bound i k (rw t at h) in
      elim (Bool-cases (i == bound)) [
        | inl e ↦ ap test ((==_iff i bound).0 e) ∙ t
        | inr e ↦ below_bound (ground (arith, below, e))
      ]
  | inr t ↦ absurd (clash (rw t at h))
]
  where
    clash : false ≡ true → ⊥
    clash k = ground arith

abbrev pub as_bit : Bool → ℕ
as_bit true = 1
as_bit false = 0

abbrev holds : Bool → ℕ → ℕ → ℕ → Bool
holds v i j b = bit_of (with_bit v i b) j == (if i == j then as_bit v else bit_of b j)

set_table : passes (λ i. passes (λ j. passes (holds true i j) 256) 8) 8 ≡ true
unfolding passes bit_of with_bit
set_table = refl

clear_table : passes (λ i. passes (λ j. passes (holds false i j) 256) 8) 8 ≡ true
unfolding passes bit_of with_bit
clear_table = refl

-- A bit of a byte after one is written: the one that was written, or the one that was there.
pub bit_of-with_bit :
    (v : Bool) (i j b : ℕ)
    → i < 8
    → j < 8
    → b < 256
    → bit_of (with_bit v i b) j ≡ (if i == j then as_bit v else bit_of b j)
bit_of-with_bit true i j b p q r =
    let rows = from_passes (λ i. passes (λ j. passes (holds true i j) 256) 8) 8 i p set_table in
    let row = from_passes (λ j. passes (holds true i j) 256) 8 j q rows in
    (==_iff _ _).0 (from_passes (holds true i j) 256 b r row)
bit_of-with_bit false i j b p q r =
    let rows = from_passes (λ i. passes (λ j. passes (holds false i j) 256) 8) 8 i p clear_table in
    let row = from_passes (λ j. passes (holds false i j) 256) 8 j q rows in
    (==_iff _ _).0 (from_passes (holds false i j) 256 b r row)

-- Every byte of the string is one.
abbrev pub AreBytes : Bytes → Type 0
AreBytes [] = Unit
AreBytes (b ∷ s) = (b < 256) × AreBytes s

pub byte_at-lt : (i : ℕ) (s : Bytes) → AreBytes s → byte_at i s < 256
unfolding byte_at
byte_at-lt i [] w = omega arith
byte_at-lt zero (b ∷ s) w = w.0
byte_at-lt (suc i) (b ∷ s) w = byte_at-lt i s w.1

pub byte_at-at_byte :
    (i j : ℕ) (f : ℕ → ℕ) (s : Bytes)
    → i < length s
    → byte_at j (at_byte i f s) ≡ (if i == j then f (byte_at j s) else byte_at j s)
unfolding byte_at at_byte
byte_at-at_byte i j f [] h = absurd (omega arith)
byte_at-at_byte zero zero f (b ∷ s) h = refl
byte_at-at_byte zero (suc j) f (b ∷ s) h = ground arith
byte_at-at_byte (suc i) zero f (b ∷ s) h = ground arith
byte_at-at_byte (suc i) (suc j) f (b ∷ s) h =
    byte_at-at_byte i j f s (omega (arith, h)) ∙ ground arith

pub length-at_byte : (i : ℕ) (f : ℕ → ℕ) (s : Bytes) → length (at_byte i f s) ≡ length s
unfolding at_byte
length-at_byte i f [] = refl
length-at_byte zero f (b ∷ s) = refl
length-at_byte (suc i) f (b ∷ s) = ap suc (length-at_byte i f s)

pub byte_at-replicate : (i n : ℕ) → byte_at i (replicate n 0) ≡ 0
unfolding byte_at
byte_at-replicate i zero = refl
byte_at-replicate zero (suc n) = refl
byte_at-replicate (suc i) (suc n) = byte_at-replicate i n

byte_at-append : (i n : ℕ) (s : Bytes) → byte_at i (s ++ replicate n 0) ≡ byte_at i s
unfolding byte_at
byte_at-append i n [] = byte_at-replicate i n
byte_at-append zero n (b ∷ s) = refl
byte_at-append (suc i) n (b ∷ s) = byte_at-append i n s

-- The zeros at the end read as the bytes beyond it do.
pub byte_at-ensure_len : (i n : ℕ) (s : Bytes) → byte_at i (ensure_len n s) ≡ byte_at i s
unfolding ensure_len
byte_at-ensure_len i n s = byte_at-append i (n - length s) s

pub ensure_len-le : (n : ℕ) (s : Bytes) → n ≤ length (ensure_len n s)
unfolding ensure_len
ensure_len-le n s =
    omega (
      arith,
      length-append s (replicate (n - length s) 0),
      length-replicate {A = ℕ} (n - length s) 0,
    )

pub byte_at-beyond : (i : ℕ) (s : Bytes) → length s ≤ i → byte_at i s ≡ 0
unfolding byte_at
byte_at-beyond i [] h = refl
byte_at-beyond zero (b ∷ s) h = absurd (omega arith)
byte_at-beyond (suc i) (b ∷ s) h = byte_at-beyond i s (omega (arith, h))
