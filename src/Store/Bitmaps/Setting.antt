-- ===== src/Store/Bitmaps/Setting.antt =====
-- SETBIT in terms of GETBIT.
use Prim.Native.Nat.{bit_and, bit_and-bitwise}
use flash_db.Base.{
  some, ◌&&◌, ◌^◌, ℕ, zero, suc, ◌+◌, ◌-◌, ◌/◌, ◌%◌, ◌≡◌, refl, sym, ap, ◌∙◌, inl, inr, Bool, true,
  false, [], ◌∷◌, Bytes, length, replicate, leb, ◌==◌, ◌=ₛ◌, if◌then◌else◌, Bool-cases, arith,
}
use flash_db.Map.{get_ref}
use flash_db.Value.{string, Clock, is_expired, as_string}
use flash_db.Store.{Store, Result, ok, err}
use flash_db.Store.Update.{map_ok}
use flash_db.Store.Update.Refine
use flash_db.Store.Update.Refine.{view, held, outcome, Refines}
use flash_db.Store.Bitmaps.{
  bit_of, with_bit, byte_at, at_byte, ensure_len, set_bit_in, fresh_bits, get_bit_in, bits_value,
  setbit, setbit_entry, getbit,
}
use flash_db.Store.Bitmaps.Bits.{
  as_bit, bit_of-with_bit, AreBytes, byte_at-lt, byte_at-at_byte, byte_at-ensure_len, ensure_len-le,
  byte_at-beyond, byte_at-replicate,
}

zero_bit : (i : ℕ) → bit_of 0 i ≡ 0
unfolding bit_of
zero_bit i = omega arith

-- A bit of a string, 0 beyond its end.
get_bit_in-byte_at :
    (offset : ℕ) (s : Bytes)
    → get_bit_in offset s ≡ bit_of (byte_at (offset / 8) s) (7 - offset % 8)
unfolding get_bit_in
get_bit_in-byte_at offset s = elim (Bool-cases (leb (length s) (offset / 8))) [
  | inl h ↦
      let beyond = byte_at-beyond (offset / 8) s (ground (arith, h)) in
      rw (h, beyond) (sym (zero_bit (7 - offset % 8)))
  | inr h ↦ rw h refl
]

-- Two places are the same if their bytes are and their places in the byte.
same_place : (o j : ℕ) → ((o / 8 == j / 8) && (7 - o % 8 == 7 - j % 8)) ≡ (o == j)
same_place o j = ground arith

written_bit :
    (same_byte same_bit same : Bool) (p : (same_byte && same_bit) ≡ same) (x y new : ℕ)
    → x ≡ (if same_bit then new else y)
    → (if same_byte then x else y) ≡ (if same then new else y)
written_bit true b same p x y new e = rw (← p) e
written_bit false b same p x y new e = rw (← p) refl

-- `set_bit_in` writes the bit and no other, and returns the one that was there.
set_bit_in_lem :
    (offset j : ℕ) (value : Bool) (s : Bytes)
    → AreBytes s
    → let done = set_bit_in offset value s in
      (get_bit_in j done.0 ≡ (if offset == j then as_bit value else get_bit_in j s))
      × (done.1 ≡ ok (get_bit_in offset s))
unfolding set_bit_in
set_bit_in_lem offset j value s w =
    let i = offset / 8 in
    let p = 7 - offset % 8 in
    let q = 7 - j % 8 in
    let bytes = ensure_len (i + 1) s in
    let b = byte_at (j / 8) s in
    let same = byte_at-ensure_len (j / 8) (i + 1) s in
    let moved =
      byte_at-at_byte i (j / 8) (with_bit value p) bytes (omega (arith, ensure_len-le (i + 1) s)) in
    let bit = bit_of-with_bit value p q b (omega arith) (omega arith) (byte_at-lt (j / 8) s w) in
    (
      get_bit_in-byte_at j (at_byte i (with_bit value p) bytes)
          ∙ ap (λ x. bit_of x q) (moved ∙ rw same refl)
          ∙ split_if (i == j / 8) (λ x. bit_of x q) (with_bit value p b) b
          ∙ written_bit (i == j / 8) (p == q) (offset == j) (same_place offset j)
              (bit_of (with_bit value p b) q) (bit_of b q) (as_bit value) bit
          ∙ ap (λ x. if offset == j then as_bit value else x) (sym (get_bit_in-byte_at j s)),
      ap (λ x. ok (bit_of x p)) (byte_at-ensure_len i (i + 1) s)
          ∙ ap ok (sym (get_bit_in-byte_at offset s)),
    )
  where
    split_if : (c : Bool) (f : ℕ → ℕ) (x y : ℕ) → f (if c then x else y) ≡ (if c then f x else f y)
    split_if true f x y = refl
    split_if false f x y = refl

at_byte-zeros : (i n : ℕ) (f : ℕ → ℕ) → f 0 ≡ 0 → at_byte i f (replicate n 0) ≡ replicate n 0
unfolding at_byte
at_byte-zeros i zero f h = refl
at_byte-zeros zero (suc n) f h = ap (λ b. b ∷ replicate n 0) h
at_byte-zeros (suc i) (suc n) f h = ap (λ s. 0 ∷ s) (at_byte-zeros i n f h)

less_none : (n : ℕ) → n - 0 ≡ n
less_none n = omega arith

fresh_bits-set_bit_in :
    (offset : ℕ) (value : Bool) → set_bit_in offset value [] ≡ (fresh_bits offset value, ok 0)
unfolding set_bit_in fresh_bits with_bit ensure_len
fresh_bits-set_bit_in offset true =
    let r = byte_at-replicate (offset / 8) (offset / 8 + 1) in
    rw (less_none (offset / 8 + 1), r, zero_bit (7 - offset % 8)) refl
fresh_bits-set_bit_in offset false =
    let r = byte_at-replicate (offset / 8) (offset / 8 + 1) in
    let f =
      at_byte-zeros (offset / 8) (offset / 8 + 1) (λ b. bit_and b (255 - 2 ^ (7 - offset % 8)))
        (bit_and-bitwise 0 (255 - 2 ^ (7 - offset % 8))) in
    rw (less_none (offset / 8 + 1), r, zero_bit (7 - offset % 8), f) refl

-- Every byte of the string that a key stands for is one.
abbrev pub AreBytesAt : Result Bytes → Type 0
AreBytesAt (ok s) = AreBytes s
AreBytesAt (err e) = Unit

view-bits_value :
    (Z S : Type 0) (c : Clock) (b : Bytes)
    → view as_string [] c (some (bits_value {Z = Z} {S = S} b)) ≡ ok b
unfolding view is_expired as_string
view-bits_value Z S c b = refl

as_string-string : (Z S : Type 0) (b : Bytes) → as_string {Z = Z} {S = S} (string b) ≡ some b
unfolding as_string
as_string-string Z S b = refl

written_at :
    (offset j : ℕ) (value : Bool) (r : Result Bytes)
    → AreBytesAt r
    → let done = outcome (set_bit_in offset value) r in
      (map_ok (get_bit_in j) done.0
        ≡ map_ok (λ b. if offset == j then as_bit value else b) (map_ok (get_bit_in j) r))
      × (done.1 ≡ map_ok (get_bit_in offset) r)
unfolding outcome map_ok
written_at offset j value (err e) w = (refl, refl)
written_at offset j value (ok s) w = let l = set_bit_in_lem offset j value s w in (ap ok l.0, l.1)

module _ {Z S : Type 0} (c : Clock) (key : Bytes) where
  abbrev pub string_at : Store Z S → Result Bytes
  string_at s = held as_string [] c s key

  getbit-string_at :
      (s : Store Z S) (j : ℕ) → getbit c s key j ≡ map_ok (get_bit_in j) (string_at s)
  unfolding getbit
  getbit-string_at s j =
      Refine.read_as-held as_string [] c s key 0 (get_bit_in j)
        (get_bit_in-byte_at j [] ∙ nothing (j / 8) (7 - j % 8))
    where
      nothing : (i k : ℕ) → bit_of (byte_at i []) k ≡ 0
      nothing i k = ap (λ b. bit_of b k) (byte_at-beyond i [] (omega arith)) ∙ zero_bit k

  setbit-Refines :
      (s : Store Z S) (k : Bytes) (offset : ℕ) (value : Bool)
      → Refines as_string [] c s key (setbit c s key offset value) (set_bit_in offset value) k
  unfolding setbit setbit_entry outcome view
  setbit-Refines s k offset value =
      let f = fresh_bits-set_bit_in offset value in
      let fresh = bits_value (fresh_bits offset value) in
      Refine.upsert-Refines as_string [] c s key k (setbit_entry c offset value) fresh 0
        (set_bit_in offset value)
        (Refine.on_entry-EntryRefines as_string [] string c (λ v. (fresh, ok 0))
          (set_bit_in offset value) (as_string-string Z S)
          (λ v e. rw (f, view-bits_value Z S c (fresh_bits offset value)) refl))
        (rw (f, view-bits_value Z S c (fresh_bits offset value)) refl)

  -- Where the key stands for a string of bytes, GETBIT after SETBIT finds the bit that was written
  -- and at every other offset what it found before, in the string or beyond its end; SETBIT returns
  -- what GETBIT found; a key of another type stays an error; and no other key changes.
  pub setbit_lem :
      (s : Store Z S) (k : Bytes) (offset j : ℕ) (value : Bool)
      → AreBytesAt (string_at s)
      → let done = setbit c s key offset value in
        (getbit c done.0 key j
          ≡ map_ok (λ b. if offset == j then as_bit value else b) (getbit c s key j))
        × (done.1 ≡ getbit c s key offset)
        × (get_ref done.0.contents k
            ≡ (if key =ₛ k then get_ref done.0.contents key else get_ref s.contents k))
  setbit_lem s k offset j value w =
      let done = setbit c s key offset value in
      let f = setbit-Refines s k offset value in
      let a = written_at offset j value (string_at s) w in
      (
        getbit-string_at done.0 j
            ∙ ap (λ p. map_ok (get_bit_in j) p.0) f.0
            ∙ a.0
            ∙ ap (map_ok (λ b. if offset == j then as_bit value else b))
                (sym (getbit-string_at s j)),
        ap (λ p. p.1) f.0 ∙ a.1 ∙ sym (getbit-string_at s offset),
        f.1,
      )
