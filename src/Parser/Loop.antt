-- ===== src/Parser/Loop.antt =====
-- `parse_one` in front of a command: the rounds of its loop, and the state that `finish` gets.
use mathlib.Core.Path.{ap₂}
use flash_db.Base.{
  ℕ, ◌+◌, ◌≤◌, ◌≡◌, sym, ap, ◌∙◌, List, [], ◌∷◌, ◌++◌, append_assoc, append-nil, Bytes, length,
  length-append, arith,
}
use flash_db.Resp.{crlf}
use flash_db.Resp.Number.Decimal.{decimal, decimal-IsDigits}
use flash_db.Resp.Replies.{bulks, command}
use flash_db.Pubsub.Frame.Lengths.{bulk}
use flash_db.Parser.{
  Memchr, RespParser, ParseResult, complete, number, header, after_bulk, bulks_loop, after_count,
  finish, parse_one, max_bulk_bytes, max_array_elements,
}
use flash_db.Parser.Number.{parse_usize-decimal}
use flash_db.Parser.Line.{Faces, header-line}

-- The offsets and lengths of the items of a command whose first part starts at `offset`.
unfoldable pub spans : ℕ → List Bytes → List (ℕ × ℕ)
spans offset [] = []
spans offset (item ∷ items) =
    (offset + (length (decimal (length item)) + 3), length item)
    ∷ spans (offset + length (bulk item)) items

abbrev pub Fits : List Bytes → Type 0
Fits [] = Unit
Fits (item ∷ items) = (length item ≤ max_bulk_bytes) × Fits items

pub length-bulk :
    (item : Bytes) → length (bulk item) ≡ length (decimal (length item)) + 3 + length item + 2
length-bulk item =
    omega (
      arith,
      length-append (decimal (length item)) (crlf ++ (item ++ crlf)),
      length-append item crlf,
    )

after_bulk_room :
    (next : RespParser → ParseResult × RespParser) (start_pos len : ℕ) (r : RespParser)
    → r.pos + (len + 2) ≤ r.filled
    → after_bulk next start_pos (number len r)
      ≡ next (record r { pos = r.pos + (len + 2); parts_raw = r.parts_raw ++ (r.pos, len) ∷ [] })
unfolding after_bulk
after_bulk_room next start_pos len r h = ground arith

module _ (m : Memchr) where
  bulk-header :
      (r : RespParser) (pre item rest : Bytes) (start_pos have : ℕ)
      → length item ≤ max_bulk_bytes
      → Faces r pre (bulk item ++ rest) (length (bulk item) + have)
      → header m b'$' max_bulk_bytes start_pos r
        ≡ number
            (length item)
            (record r { pos = length pre + (length (decimal (length item)) + 3) })
  bulk-header r pre item rest start_pos have fit faces =
      header-line m r pre (decimal (length item)) (item ++ (crlf ++ rest)) b'$'
        (length item + 2 + have) (omega arith) (decimal-IsDigits (length item))
        (record {
          buffer = faces.buffer ∙ ap (λ x. pre ++ b'$' ∷ x) (simp append_assoc);
          position = faces.position;
          level = omega (arith, faces.level, length-bulk item);
        })
        start_pos max_bulk_bytes (length item)
        (parse_usize-decimal (length item) max_bulk_bytes fit (omega arith))

  bulks_loop-bulks :
      (items : List Bytes) (r : RespParser) (pre post : Bytes) (start_pos have : ℕ)
      → Fits items
      → Faces r pre (bulks items ++ post) (length (bulks items) + have)
      → bulks_loop m (length items) start_pos r ≡ (
        complete,
        record r {
          pos = length pre + length (bulks items);
          parts_raw = r.parts_raw ++ spans (length pre) items;
        },
      )
  unfolding bulks_loop spans
  bulks_loop-bulks [] r pre post start_pos have fit faces =
      rw append-nil (ground (arith, faces.position))
  bulks_loop-bulks (item ∷ items) r pre post start_pos have fit faces =
      let buffer : r.rbuf ≡ pre ++ (bulk item ++ (bulks items ++ post)) =
        faces.buffer ∙ ap (λ x. pre ++ x) (append_assoc (bulk item) (bulks items) post) in
      let level : r.filled ≡ length pre + (length (bulk item) + (length (bulks items) + have)) =
        omega (arith, faces.level, length-append (bulk item) (bulks items)) in
      let start = length pre + (length (decimal (length item)) + 3) in
      let next = bulks_loop m (length items) start_pos in
      let r2 = record r { pos = start } in
      let r3 = record r2 {
        pos = start + (length item + 2);
        parts_raw = r.parts_raw ++ (start, length item) ∷ [];
      } in
      let moved = length-append pre (bulk item) in
      ap (after_bulk next start_pos) (
        bulk-header r pre item (bulks items ++ post) start_pos (length (bulks items) + have) fit.0
          (record { buffer = buffer; position = faces.position; level = level }))
      ∙ after_bulk_room next start_pos (length item) r2 (omega (arith, level, length-bulk item))
      ∙ bulks_loop-bulks items r3 (pre ++ bulk item) post start_pos have fit.1 (record {
        buffer = buffer ∙ sym (append_assoc pre (bulk item) (bulks items ++ post));
        position = omega (arith, moved, length-bulk item);
        level = omega (arith, moved, level);
      })
      ∙ ap₂ (λ (p : ℕ) (parts : List (ℕ × ℕ)). (complete, record r { pos = p; parts_raw = parts }))
          (omega (arith, moved, length-append (bulk item) (bulks items)))
          (rw moved (append_assoc r.parts_raw _ _))

-- The state behind a command, before `finish`.
unfoldable pub parsed : RespParser → Bytes → List Bytes → RespParser
parsed r pre items = record r {
  pos = length pre + length (command items);
  parts_raw = spans (length pre + (length (decimal (length items)) + 3)) items;
}

module _ (m : Memchr) where
  command-header :
      (r : RespParser) (pre post : Bytes) (items : List Bytes) (start_pos have : ℕ)
      → length items ≤ max_array_elements
      → Faces r pre (command items ++ post) (length (command items) + have)
      → header m b'*' max_array_elements start_pos r
        ≡ number
            (length items)
            (record r { pos = length pre + (length (decimal (length items)) + 3) })
  command-header r pre post items start_pos have few faces =
      let ds = decimal (length items) in
      header-line m r pre ds (bulks items ++ post) b'*' (length (bulks items) + have) (omega arith)
        (decimal-IsDigits (length items))
        (record {
          buffer = faces.buffer ∙ ap (λ x. pre ++ b'*' ∷ x) (simp append_assoc);
          position = faces.position;
          level = omega (arith, faces.level, length-append ds (crlf ++ bulks items));
        })
        start_pos max_array_elements (length items)
        (parse_usize-decimal (length items) max_array_elements few (omega arith))

  pub parse_one-command :
      (r : RespParser) (pre post : Bytes) (items : List Bytes) (have : ℕ)
      → length items ≤ max_array_elements
      → Fits items
      → Faces r pre (command items ++ post) (length (command items) + have)
      → parse_one m r ≡ finish (complete, parsed r pre items)
  unfolding parse_one after_count parsed
  parse_one-command r pre post items have few fit faces =
      let r0 = record r { parts_raw = [] } in
      let ds = decimal (length items) in
      let front = b'*' ∷ (ds ++ crlf) in
      let r1 = record r0 { pos = length pre + (length ds + 3) } in
      let regrouped : pre ++ (command items ++ post) ≡ (pre ++ front) ++ (bulks items ++ post) =
        simp append_assoc in
      let moved : length (pre ++ front) ≡ length pre + (length ds + 3) =
        omega (arith, length-append pre front, length-append ds crlf) in
      let total : length (command items) ≡ length ds + 3 + length (bulks items) =
        omega (arith, length-append ds (crlf ++ bulks items)) in
      ap (after_count m r.pos) (
        command-header r0 pre post items r.pos have few
          (record { buffer = faces.buffer; position = faces.position; level = faces.level }))
      ∙ ap finish (
          bulks_loop-bulks m items r1 (pre ++ front) post r.pos have fit (record {
            buffer = faces.buffer ∙ regrouped;
            position = sym moved;
            level = omega (arith, faces.level, moved, total);
          })
          ∙ ap₂ (λ (p o : ℕ). (complete, record r { pos = p; parts_raw = spans o items }))
              (omega (arith, moved, total)) moved)
