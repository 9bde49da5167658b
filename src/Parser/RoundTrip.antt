-- ===== src/Parser/RoundTrip.antt =====
-- `parse_one` reads back what `write_array` writes.
use mathlib.Core.Path.{ap₂, subst}
use flash_db.Base.{
  ℕ, ◌+◌, ◌*◌, ◌≤◌, ◌≡◌, refl, sym, ap, ◌∙◌, List, [], ◌∷◌, ◌++◌, append_assoc, Bytes, length, take,
  length-append, take-append, drop-append, arith,
}
use flash_db.Resp.{crlf, write_array}
use flash_db.Resp.Number.Decimal.{decimal}
use flash_db.Resp.Replies.{bulks, command, write_array-eq-command}
use flash_db.Pubsub.Frame.Lengths.{bulk}
use flash_db.Parser.{
  Memchr, RespParser, complete, slice, shrink, finish, parse_one, max_array_elements,
}
use flash_db.Parser.Line.{Faces}
use flash_db.Parser.Loop.{spans, Fits, parsed, parse_one-command}

-- The bytes that the parts stand for, as the dispatcher reads them through the pointers.
unfoldable pub contents : Bytes → List (ℕ × ℕ) → List Bytes
contents buf [] = []
contents buf ((offset, len) ∷ parts) = slice buf offset (offset + len) ∷ contents buf parts

slice_at : (u x v : Bytes) (o : ℕ) → o ≡ length u → slice (u ++ (x ++ v)) o (o + length x) ≡ x
slice_at u x v o e =
    rw e (rw drop-append (subst (λ (k : ℕ). take k (x ++ v) ≡ x) (omega arith) (take-append x v)))

contents-spans :
    (items : List Bytes) (pre post : Bytes)
    → contents (pre ++ (bulks items ++ post)) (spans (length pre) items) ≡ items
unfolding contents spans
contents-spans [] pre post = refl
contents-spans (item ∷ items) pre post =
    let ds = decimal (length item) in
    let front = b'$' ∷ (ds ++ crlf) in
    let inner : pre ++ (bulks (item ∷ items) ++ post)
        ≡ (pre ++ front) ++ (item ++ (crlf ++ (bulks items ++ post))) =
      simp append_assoc in
    let outer : pre ++ (bulks (item ∷ items) ++ post)
        ≡ (pre ++ bulk item) ++ (bulks items ++ post) =
      simp append_assoc in
    ap₂ (λ (x : Bytes) (xs : List Bytes). x ∷ xs)
      (rw inner (
        slice_at (pre ++ front) item _ _
          (omega (arith, length-append pre front, length-append ds crlf))))
      (ap₂ (λ (b : Bytes) (o : ℕ). contents b (spans o items)) outer
          (sym (length-append pre (bulk item)))
        ∙ contents-spans items (pre ++ bulk item) post)

contents-command :
    (items : List Bytes) (pre post : Bytes)
    → contents
        (pre ++ (command items ++ post))
        (spans (length pre + (length (decimal (length items)) + 3)) items)
      ≡ items
contents-command items pre post =
    let ds = decimal (length items) in
    let front = b'*' ∷ (ds ++ crlf) in
    let regrouped : pre ++ (command items ++ post) ≡ (pre ++ front) ++ (bulks items ++ post) =
      simp append_assoc in
    ap₂ (λ (b : Bytes) (o : ℕ). contents b (spans o items)) regrouped
      (omega (arith, length-append pre front, length-append ds crlf))
    ∙ contents-spans items (pre ++ front) post

finish_small : (r : RespParser) → length r.rbuf ≤ 16 * 1024 → finish (complete, r) ≡ (complete, r)
unfolding finish shrink
finish_small r h = ground arith

-- With `write_array items` in front of the parser, of at most 1024 items of at most 512 MiB each,
-- and a buffer of at most 16 KiB, `parse_one` completes, its parts stand for `items`, its position
-- is behind the command, and buffer and fill level are as before, whatever follows the command.
pub parse_one-write_array :
    (m : Memchr) (r : RespParser) (pre post : Bytes) (items : List Bytes) (have : ℕ)
    → length items ≤ max_array_elements
    → Fits items
    → r.rbuf ≡ pre ++ (write_array [] items ++ post)
    → r.pos ≡ length pre
    → r.filled ≡ length pre + (length (write_array [] items) + have)
    → length r.rbuf ≤ 16 * 1024
    → ((parse_one m r).0 ≡ complete)
      × (contents (parse_one m r).1.rbuf (parse_one m r).1.parts_raw ≡ items)
      × ((parse_one m r).1.pos ≡ r.pos + length (write_array [] items))
      × ((parse_one m r).1.rbuf ≡ r.rbuf)
      × ((parse_one m r).1.filled ≡ r.filled)
unfolding parsed
parse_one-write_array m r pre post items have few fit buffer position level small =
    let written = write_array-eq-command [] items in
    let faces : Faces r pre (command items ++ post) (length (command items) + have) = record {
      buffer = subst (λ (w : Bytes). r.rbuf ≡ pre ++ (w ++ post)) written buffer;
      position = position;
      level = subst (λ (w : Bytes). r.filled ≡ length pre + (length w + have)) written level;
    } in
    let run : parse_one m r ≡ (complete, parsed r pre items) =
      parse_one-command m r pre post items have few fit faces
      ∙ finish_small (parsed r pre items) small in
    rw (run, written)
      (
        refl,
        ap
              (λ (b : Bytes).
                contents b (spans (length pre + (length (decimal (length items)) + 3)) items))
              faces.buffer
            ∙ contents-command items pre post,
        rw position,
        refl,
        refl,
      )
