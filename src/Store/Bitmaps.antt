-- ===== src/Store/Bitmaps.antt =====
-- src/storage/bitmap.rs: the commands on the bits of a string; the bits of a byte count from its top.
pub mod Bits
pub mod Setting
mod Tests
use Prim.Native.Nat.{bit_and, bit_or, bit_xor}
use flash_db.Base.{
  ℕ, zero, suc, ◌+◌, ◌-◌, ◌*◌, ◌/◌, ◌%◌, ◌^◌, Bool, true, false, Option, none, some, List, [], ◌∷◌,
  ◌++◌, Bytes, codes, length, take, drop, replicate, min, max, ltb, leb, ◌==◌, if◌then◌else◌,
}
use flash_db.Base.Int.{ℤ, pos, negsuc}
use flash_db.Map.{get_ref}
use flash_db.Value.{string, StoreValue, Clock, is_expired, as_string}
use flash_db.Store.{Store, Result, ok, err, wrong_type, one_source}
use flash_db.Store.Update.{put, upsert, on_entry, read_as}

-- `(b >> i) & 1`, and `b |= 1 << i` or `b &= !(1 << i)`.
unfoldable pub bit_of : ℕ → ℕ → ℕ
bit_of b i = b / 2 ^ i % 2

unfoldable pub with_bit : Bool → ℕ → ℕ → ℕ
with_bit value i b = if value then bit_or b (2 ^ i) else bit_and b (255 - 2 ^ i)

-- A byte of the string, 0 beyond its end, and the string with a byte changed.
unfoldable pub byte_at : ℕ → Bytes → ℕ
byte_at i [] = 0
byte_at zero (b ∷ s) = b
byte_at (suc i) (b ∷ s) = byte_at i s

unfoldable pub at_byte : ℕ → (ℕ → ℕ) → Bytes → Bytes
at_byte i f [] = []
at_byte zero f (b ∷ s) = f b ∷ s
at_byte (suc i) f (b ∷ s) = b ∷ at_byte i f s

unfoldable pub ensure_len : ℕ → Bytes → Bytes
ensure_len min_len s = s ++ replicate (min_len - length s) 0

unfoldable pub set_bit_in : ℕ → Bool → Bytes → Bytes × Result ℕ
set_bit_in offset value s =
    let byte_idx = offset / 8 in
    let bit_idx = 7 - offset % 8 in
    let bytes = ensure_len (byte_idx + 1) s in
    (at_byte byte_idx (with_bit value bit_idx) bytes, ok (bit_of (byte_at byte_idx bytes) bit_idx))

-- The bytes of a new string.
unfoldable pub fresh_bits : ℕ → Bool → Bytes
fresh_bits offset value =
    let bytes = replicate (offset / 8 + 1) 0 in
    if value then at_byte (offset / 8) (λ b. bit_or b (2 ^ (7 - offset % 8))) bytes else bytes

unfoldable pub get_bit_in : ℕ → Bytes → ℕ
get_bit_in offset s =
    if leb (length s) (offset / 8) then 0 else bit_of (byte_at (offset / 8) s) (7 - offset % 8)

unfoldable pub normalize_bit_index : ℤ → ℕ → ℕ
normalize_bit_index (negsuc n) bit_len = bit_len - suc n
normalize_bit_index (pos n) bit_len = min n (bit_len - 1)

-- The bounds in bytes: a start may be the length, an end is at most the last byte.
unfoldable pub start_byte : ℤ → ℕ → ℕ
start_byte (negsuc n) len = len - suc n
start_byte (pos n) len = min n len

unfoldable pub end_byte : ℤ → ℕ → ℕ
end_byte (negsuc n) len = len - suc n
end_byte (pos n) len = min n (len - 1)

-- The bit at a place of the string, the loop that counts, and `count_ones`.
abbrev pub bit_at : Bytes → ℕ → ℕ
bit_at s i = if ltb (i / 8) (length s) then bit_of (byte_at (i / 8) s) (7 - i % 8) else 0

unfoldable pub count_loop : ℕ → ℕ → Bytes → ℕ
count_loop zero i s = 0
count_loop (suc n) i s = (if bit_at s i == 1 then 1 else 0) + count_loop n (i + 1) s

unfoldable pub ones_below : ℕ → ℕ → ℕ
ones_below zero b = 0
ones_below (suc i) b = bit_of b i + ones_below i b

unfoldable pub sum_ones : Bytes → ℕ
sum_ones [] = 0
sum_ones (b ∷ s) = ones_below 8 b + sum_ones s

unfoldable pub bitcount_in : ℤ → ℤ → Bool → Bytes → ℕ
bitcount_in start end use_bit [] = 0
bitcount_in start end true (b ∷ s) =
    let n = length (b ∷ s) * 8 in
    let i = normalize_bit_index start n in
    let j = normalize_bit_index end n in if ltb j i then 0 else count_loop (j - i + 1) i (b ∷ s)
bitcount_in start end false (b ∷ s) =
    let n = length (b ∷ s) in
    let i = start_byte start n in
    let j = end_byte end n in if ltb j i then 0 else sum_ones (take (j - i + 1) (drop i (b ∷ s)))

-- The first place with the bit.
unfoldable pub pos_loop : ℕ → ℕ → ℕ → Bytes → Option ℕ
pos_loop zero i bit s = none
pos_loop (suc n) i bit s =
    let rest = pos_loop n (i + 1) bit s in if bit_at s i == bit then some i else rest

-- In a byte, from its top, and in the bytes from the place `i` on.
unfoldable pub top_loop : ℕ → ℕ → ℕ → Option ℕ
top_loop zero bit b = none
top_loop (suc i) bit b =
    let rest = top_loop i bit b in if bit_of b i == bit then some (7 - i) else rest

unfoldable pub bytes_loop : ℕ → ℕ → Bytes → Option ℕ
bytes_loop i bit [] = none
bytes_loop i bit (b ∷ s) = elim (top_loop 8 bit b) [
  | some k ↦ some (i * 8 + k)
  | none ↦ bytes_loop (i + 1) bit s
]

abbrev pub or_minus_one : Option ℕ → ℤ
or_minus_one none = negsuc 0
or_minus_one (some i) = pos i

abbrev pub nowhere : ℕ → ℤ
nowhere bit = if bit == 0 then pos 0 else negsuc 0

unfoldable pub bitpos_in : ℕ → ℤ → ℤ → Bool → Bool → Bytes → ℤ
bitpos_in bit start end has_end use_bit [] = nowhere bit
bitpos_in bit start end has_end true (b ∷ s) =
    let n = length (b ∷ s) * 8 in
    let i = normalize_bit_index start n in
    let j = normalize_bit_index end n in
    if ltb j i then negsuc 0 else or_minus_one (pos_loop (j - i + 1) i bit (b ∷ s))
bitpos_in bit start end has_end false (b ∷ s) =
    let n = length (b ∷ s) in
    let i = start_byte start n in
    let j : ℕ = elim end [
      | negsuc k ↦ n - suc k
      | pos k ↦ if has_end then min k (n - 1) else n - 1
    ] in
    if ltb j i then negsuc 0 else elim (bytes_loop i bit (drop i (take (j + 1) (b ∷ s)))) [
      | some k ↦ pos k
      | none ↦ if bit == 0 then (if has_end then negsuc 0 else pos (n * 8)) else negsuc 0
    ]

pub data BitOp : Type 0 where
  and_ or_ xor_ not_ : BitOp

-- The loops of BITOP over the bytes of two strings: with the shorter one taken for zeros, or only over
-- the second one.
unfoldable pub and_loop : Bytes → Bytes → Bytes
and_loop [] s = []
and_loop (r ∷ result) [] = bit_and r 0 ∷ and_loop result []
and_loop (r ∷ result) (b ∷ s) = bit_and r b ∷ and_loop result s

unfoldable pub zip_loop : (ℕ → ℕ → ℕ) → Bytes → Bytes → Bytes
zip_loop f [] s = []
zip_loop f (r ∷ result) [] = r ∷ result
zip_loop f (r ∷ result) (b ∷ s) = f r b ∷ zip_loop f result s

unfoldable pub fold_buffers : (Bytes → Bytes → Bytes) → List Bytes → Bytes → Bytes
fold_buffers f [] result = result
fold_buffers f (s ∷ buffers) result = fold_buffers f buffers (f result s)

unfoldable pub inverted : Bytes → Bytes
inverted [] = []
inverted (b ∷ s) = (255 - b) ∷ inverted s

unfoldable pub longest : List Bytes → ℕ
longest [] = 0
longest (s ∷ buffers) = max (length s) (longest buffers)

unfoldable pub bitop_bytes : BitOp → List Bytes → Result Bytes
bitop_bytes and_ buffers = ok (fold_buffers and_loop buffers (replicate (longest buffers) 0xff))
bitop_bytes or_ buffers =
    ok (fold_buffers (zip_loop bit_or) buffers (replicate (longest buffers) 0))
bitop_bytes xor_ buffers =
    ok (fold_buffers (zip_loop bit_xor) buffers (replicate (longest buffers) 0))
bitop_bytes not_ (s ∷ []) = ok (inverted s)
bitop_bytes not_ _ = err one_source

module _ {Z S : Type 0} where
  abbrev pub bits_value : Bytes → StoreValue Z S
  bits_value s = record { value = string s; expires_ms = 0 }

  unfoldable pub setbit_entry : Clock → ℕ → Bool → StoreValue Z S → StoreValue Z S × Result ℕ
  setbit_entry c offset value =
      on_entry as_string string c (λ v. (bits_value (fresh_bits offset value), ok 0))
        (set_bit_in offset value)

  unfoldable pub setbit : Clock → Store Z S → Bytes → ℕ → Bool → Store Z S × Result ℕ
  setbit c s key offset value =
      upsert s key (setbit_entry c offset value) (bits_value (fresh_bits offset value)) 0

  unfoldable pub getbit : Clock → Store Z S → Bytes → ℕ → Result ℕ
  getbit c s key offset = read_as as_string c s key 0 (get_bit_in offset)

  unfoldable pub bitcount : Clock → Store Z S → Bytes → ℤ → ℤ → Bool → Result ℕ
  bitcount c s key start end use_bit = read_as as_string c s key 0 (bitcount_in start end use_bit)

  unfoldable pub bitpos : Clock → Store Z S → Bytes → ℕ → ℤ → ℤ → Bool → Bool → Result ℤ
  bitpos c s key bit start end has_end use_bit =
      read_as as_string c s key (nowhere bit) (bitpos_in bit start end has_end use_bit)

  -- The strings of the keys, where a missing or expired one is empty.
  unfoldable pub buffers_of : Clock → Store Z S → List Bytes → Result (List Bytes)
  buffers_of c s [] = ok []
  buffers_of c s (k ∷ keys) = elim (read_as as_string c s k [] (λ b. b)) [
    | err e ↦ err e
    | ok b ↦ elim (buffers_of c s keys) [ err e ↦ err e | ok buffers ↦ ok (b ∷ buffers) ]
  ]

  unfoldable pub store_bits : Store Z S → Bytes → Result Bytes → Store Z S × Result ℕ
  store_bits s dest (err e) = (s, err e)
  store_bits s dest (ok b) = (put s dest (bits_value b), ok (length b))

  unfoldable pub bitop : Clock → Store Z S → BitOp → Bytes → List Bytes → Store Z S × Result ℕ
  bitop c s op dest keys = elim (buffers_of c s keys) [
    | err e ↦ (s, err e)
    | ok [] ↦ (put s dest (bits_value []), ok 0)
    | ok (b ∷ buffers) ↦ store_bits s dest (bitop_bytes op (b ∷ buffers))
  ]
