-- ===== src/Commends/Replies.antt =====
-- The replies of the protocol, and the writers of src/utils/resp.rs as appending one of them.
use flash_db.Base.{
  suc, ◌≡◌, refl, sym, ap, ◌∙◌, Bool, true, false, not, ◌&&◌, List, [], ◌∷◌, ◌++◌, append_assoc,
  map, Bytes, codes, length, ◌==◌, arith,
}
use flash_db.Base.Int.{ℤ, pos}
use flash_db.Resp.{
  crlf, nil_reply, write_nil, write_integer, write_boolean, write_bulk, write_array,
  write_wrong_type, write_wrong_args, write_err,
}
use flash_db.Resp.Number.Decimal.{low_digits, decimal}
use flash_db.Resp.Replies.{
  signed, write_integer-eq-signed, bulks, write_bulk-eq-bulk, write_array-eq-command, command,
}
use flash_db.Pubsub.Frame.Lengths.{bulk}

-- A reply that is no array.
pub data Leaf : Type 0 where
  failure : Bytes → Leaf
  number : ℤ → Leaf
  text : Bytes → Leaf
  nil : Leaf

-- The last is what a scan replies: a cursor and an array.
pub data Reply : Type 0 where
  leaf : Leaf → Reply
  array : List Leaf → Reply
  page : Leaf → List Leaf → Reply

abbrev pub encode_leaf : Leaf → Bytes
encode_leaf (failure s) = b'-' ∷ (s ++ crlf)
encode_leaf (number n) = b':' ∷ (signed n ++ crlf)
encode_leaf (text s) = bulk s
encode_leaf nil = nil_reply

abbrev pub encode_leaves : List Leaf → Bytes
encode_leaves [] = []
encode_leaves (l ∷ leaves) = encode_leaf l ++ encode_leaves leaves

abbrev pub encode_array : List Leaf → Bytes
encode_array leaves = b'*' ∷ (decimal (length leaves) ++ (crlf ++ encode_leaves leaves))

abbrev pub encode : Reply → Bytes
encode (leaf l) = encode_leaf l
encode (array leaves) = encode_array leaves
encode (page cursor leaves) = codes "*2\r\n" ++ (encode_leaf cursor ++ encode_array leaves)

-- No byte of the text ends a line.
abbrev pub is_line : Bytes → Bool
is_line [] = true
is_line (b ∷ s) = let rest = is_line s in not (b == 10) && (not (b == 13) && rest)

-- The message of an error stays within its line.
abbrev pub IsWhole : Reply → Type 0
IsWhole (leaf (failure s)) = is_line s ≡ true
IsWhole (leaf (number n)) = Unit
IsWhole (leaf (text s)) = Unit
IsWhole (leaf nil) = Unit
IsWhole (array leaves) = Unit
IsWhole (page cursor leaves) = Unit

-- What was written is the output so far and one whole reply.
abbrev pub Appends : Bytes → Bytes → Type 0
Appends out res = (r : Reply) × (res ≡ out ++ encode r) × IsWhole r

pub write_integer-Appends : (out : Bytes) (n : ℤ) → Appends out (write_integer out n)
write_integer-Appends out n = (leaf (number n), write_integer-eq-signed out n, tt)

pub write_bulk-Appends : (out s : Bytes) → Appends out (write_bulk out s)
write_bulk-Appends out s = (leaf (text s), write_bulk-eq-bulk out s, tt)

pub write_nil-Appends : (out : Bytes) → Appends out (write_nil out)
unfolding write_nil
write_nil-Appends out = (leaf nil, refl, tt)

encode_leaves-bulks : (items : List Bytes) → bulks items ≡ encode_leaves (map text items)
encode_leaves-bulks [] = refl
encode_leaves-bulks (item ∷ items) = ap (λ s. bulk item ++ s) (encode_leaves-bulks items)

length-map_text : (items : List Bytes) → length items ≡ length (map text items)
length-map_text [] = refl
length-map_text (item ∷ items) = ap suc (length-map_text items)

pub command-eq-encode_array : (items : List Bytes) → command items ≡ encode_array (map text items)
command-eq-encode_array items = rw (sym (encode_leaves-bulks items), sym (length-map_text items))

pub write_array-Appends : (out : Bytes) (items : List Bytes) → Appends out (write_array out items)
write_array-Appends out items = (
  array (map text items),
  write_array-eq-command out items ∙ ap (λ s. out ++ s) (command-eq-encode_array items),
  tt,
)

pub write_boolean-Appends : (out : Bytes) (b : Bool) → Appends out (write_boolean out b)
unfolding write_boolean decimal low_digits
write_boolean-Appends out true = (leaf (number (pos 1)), refl, tt)
write_boolean-Appends out false = (leaf (number (pos 0)), refl, tt)

is_line-append : (s t : Bytes) → is_line s ≡ true → is_line t ≡ true → is_line (s ++ t) ≡ true
is_line-append [] t h g = g
is_line-append (b ∷ s) t h g = ground (arith, is_line-append s t)

pub write_err-Appends : (out msg : Bytes) → is_line msg ≡ true → Appends out (write_err out msg)
unfolding write_err
write_err-Appends out msg h = (
  leaf (failure (codes "ERR " ++ msg)),
  simp append_assoc,
  is_line-append (codes "ERR ") msg refl h,
)

pub write_wrong_type-Appends : (out : Bytes) → Appends out (write_wrong_type out)
unfolding write_wrong_type
write_wrong_type-Appends out = (
  leaf (failure (codes "WRONGTYPE Operation against a key holding the wrong kind of value")),
  refl,
  refl,
)

pub write_wrong_args-Appends :
    (out cmd : Bytes) → is_line cmd ≡ true → Appends out (write_wrong_args out cmd)
unfolding write_wrong_args
write_wrong_args-Appends out cmd h = (
  leaf (failure (codes "ERR wrong number of arguments for '" ++ (cmd ++ codes "' command"))),
  simp append_assoc,
  is_line-append (codes "ERR wrong number of arguments for '") (cmd ++ codes "' command") refl
      (is_line-append cmd (codes "' command") h refl),
)
