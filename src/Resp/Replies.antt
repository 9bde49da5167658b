-- ===== src/Resp/Replies.antt =====
-- The fast paths of the writers against the plain format.
use flash_db.Base.{
  ℕ, zero, suc, ◌+◌, ◌/◌, ◌%◌, ◌<◌, ◌≡◌, refl, ◌∙◌, inl, inr, List, [], ◌∷◌, ◌++◌, append_assoc,
  append-nil, Bytes, length, ltb, Bool-cases, arith, tests,
}
use flash_db.Base.Int.{ℤ, pos, negsuc}
use flash_db.Resp.{crlf, write_bulk_bytes, write_bulk, write_integer, write_items, write_array}
use flash_db.Resp.Number.{write_i64}
use flash_db.Resp.Number.Decimal.{
  push_negative-eq-low_digits, reverse_from-append, low_digits, low_digits_zero, decimal,
  write_usize-eq-decimal,
}
use flash_db.Pubsub.Frame.{bulk_into}
use flash_db.Pubsub.Frame.Lengths.{bulk, bulk_into-eq-bulk}

one_digit : (n : ℕ) → n < 10 → decimal n ≡ (b'0' + n) ∷ []
unfolding decimal low_digits
one_digit zero h = refl
one_digit (suc n) h = ground (arith, low_digits_zero n)

two_digits : (n : ℕ) → 9 < n → n < 100 → decimal n ≡ (b'0' + n / 10) ∷ (b'0' + n % 10) ∷ []
unfolding decimal low_digits
two_digits zero l h = absurd (omega arith)
two_digits (suc zero) l h = absurd (omega arith)
two_digits (suc (suc n)) l h = ground (arith, low_digits_zero n)

-- The three paths of `write_bulk_bytes` write what `bulk_into` of the pub/sub frames writes: `$`,
-- the length in decimal, CRLF, the bytes, CRLF.
pub write_bulk_bytes-eq-bulk_into : (out s : Bytes) → write_bulk_bytes out s ≡ bulk_into out s
unfolding write_bulk_bytes
write_bulk_bytes-eq-bulk_into out s = rw bulk_into-eq-bulk (elim (Bool-cases (ltb (length s) 10)) [
  | inl e ↦ rw e (rw (one_digit (length s) (omega tests)) (simp append_assoc))
  | inr e ↦ elim (Bool-cases (ltb (length s) 100)) [
    | inl e' ↦
        rw (e, e') (rw (two_digits (length s) (ground arith) (omega tests)) (simp append_assoc))
    | inr e' ↦ rw (e, e') (simp (write_usize-eq-decimal, append_assoc))
  ]
])

-- The text of a 64-bit integer.
abbrev pub signed : ℤ → Bytes
signed (pos n) = decimal n
signed (negsuc n) = b'-' ∷ decimal (suc n)

write_i64-eq-signed : (out : Bytes) (n : ℤ) → write_i64 out n ≡ out ++ signed n
unfolding write_i64 decimal
write_i64-eq-signed out (pos n) = write_usize-eq-decimal out n
write_i64-eq-signed out (negsuc n) =
    let begun = out ++ b'-' ∷ [] in
    rw (push_negative-eq-low_digits (suc n) (suc n) begun (omega arith) (omega arith)) (
      rw (reverse_from-append begun (low_digits (suc n) (suc n)))
        (simp append_assoc (ground arith)))

-- `write_integer` writes a colon, the decimal text and CRLF, on the cached path as on the other.
pub write_integer-eq-signed :
    (out : Bytes) (n : ℤ) → write_integer out n ≡ out ++ b':' ∷ (signed n ++ crlf)
unfolding write_integer
write_integer-eq-signed out (negsuc n) = simp (write_i64-eq-signed, append_assoc)
write_integer-eq-signed out (pos n) = elim (Bool-cases (ltb n 10)) [
  | inl e ↦ rw e (rw (one_digit n (omega tests)))
  | inr e ↦ rw e (simp (write_i64-eq-signed, append_assoc))
]

abbrev pub bulks : List Bytes → Bytes
bulks [] = []
bulks (item ∷ items) = bulk item ++ bulks items

-- The items of a command as an array of bulk strings.
abbrev pub command : List Bytes → Bytes
command items = b'*' ∷ (decimal (length items) ++ (crlf ++ bulks items))

write_bulk-write_bulk_bytes : (out s : Bytes) → write_bulk out s ≡ write_bulk_bytes out s
unfolding write_bulk
write_bulk-write_bulk_bytes out s = refl

pub write_bulk-eq-bulk : (out s : Bytes) → write_bulk out s ≡ out ++ bulk s
write_bulk-eq-bulk out s =
    write_bulk-write_bulk_bytes out s
    ∙ write_bulk_bytes-eq-bulk_into out s
    ∙ bulk_into-eq-bulk out s

write_items-eq-bulks :
    (out : Bytes) (items : List Bytes) → write_items out items ≡ out ++ bulks items
unfolding write_items
write_items-eq-bulks out [] = rw append-nil
write_items-eq-bulks out (item ∷ items) =
    rw (write_items-eq-bulks (write_bulk out item) items) (simp (write_bulk-eq-bulk, append_assoc))

-- `write_array` writes `*`, the number of the items in decimal, CRLF, and each item as a bulk
-- string.
pub write_array-eq-command :
    (out : Bytes) (items : List Bytes) → write_array out items ≡ out ++ command items
unfolding write_array
write_array-eq-command out items = simp (write_items-eq-bulks, write_usize-eq-decimal, append_assoc)
