-- ===== src/Parser/Fill.antt =====
-- `read_buf` makes room for the next read and keeps what is not parsed yet; and a header line that is
-- a sigil and a bare newline.
use mathlib.Core.Path.{subst, subst₃}
use flash_db.Base.{
  ℕ, zero, suc, ◌+◌, ◌-◌, ◌≤◌, ◌≡◌, refl, sym, ap, ◌∙◌, inl, inr, some, [], ◌∷◌, ◌++◌, Bytes,
  length, take, drop, replicate, length-append, length-replicate, length-take, length-drop,
  take-append, get_elem?, get_elem?-append, ltb, Bool-cases, arith,
}
use flash_db.Parser.{
  Memchr, RespParser, panic, slice, compacted, grown, read_buf, scan_line, after_line, header,
  after_count, parse_one,
}
use flash_db.Parser.Bounds.{IsValid}
use flash_db.Parser.Line.{Faces, slice-append}

take-append_le : (n : ℕ) (s t : Bytes) → n ≤ length s → take n (s ++ t) ≡ take n s
take-append_le zero s t h = refl
take-append_le (suc n) [] t h = absurd (omega arith)
take-append_le (suc n) (x ∷ s) t h = ap (λ l. x ∷ l) (take-append_le n s t (omega arith))

drop-append_le : (n : ℕ) (s t : Bytes) → n ≤ length s → drop n (s ++ t) ≡ drop n s ++ t
drop-append_le zero s t h = refl
drop-append_le (suc n) [] t h = absurd (omega arith)
drop-append_le (suc n) (x ∷ s) t h = drop-append_le n s t (omega arith)

slice-append_right :
    (s t : Bytes) (from until : ℕ)
    → from ≤ until
    → until ≤ length s
    → slice (s ++ t) from until ≡ slice s from until
slice-append_right s t from until h k =
    rw (drop-append_le from s t (omega arith))
      (take-append_le (until - from) (drop from s) t (omega (arith, length-drop from s)))

-- What is read and not parsed.
abbrev pub unread : RespParser → Bytes
unread r = slice r.rbuf r.pos r.filled

-- A valid state with at least a kilobyte, and the same bytes to parse.
record Refilled (r r' : RespParser) : Type 0 where
  valid : IsValid r'
  kept : unread r' ≡ unread r
  size : length r.rbuf ≤ length r'.rbuf

compacted-Refilled : (r : RespParser) → IsValid r → Refilled r (compacted r)
unfolding compacted
compacted-Refilled r v = elim (Bool-cases (ltb 0 r.pos)) [
  | inr e ↦ rw e (record { valid = v; kept = refl; size = omega arith })
  | inl e ↦
      let kept = take (r.filled - r.pos) (drop r.pos r.rbuf) in
      let n : length kept ≡ r.filled - r.pos =
        omega
          (arith, length-take (r.filled - r.pos) (drop r.pos r.rbuf), length-drop r.pos r.rbuf) in
      let sum = length-append kept (drop (r.filled - r.pos) r.rbuf) in
      let tail = length-drop (r.filled - r.pos) r.rbuf in
      rw e (record {
        valid = (omega arith, omega (arith, n, sum, tail));
        kept =
            subst (λ (k : ℕ). take k (kept ++ drop (r.filled - r.pos) r.rbuf) ≡ kept)
              (omega (arith, n)) (take-append kept _);
        size = omega (arith, n, sum, tail);
      })
]

grown-Refilled : (r : RespParser) → IsValid r → Refilled r (grown r)
unfolding grown
grown-Refilled r v = elim (Bool-cases (ltb (length r.rbuf - r.filled) 1024)) [
  | inr e ↦ rw e (record { valid = v; kept = refl; size = omega arith })
  | inl e ↦
      let sum = length-append r.rbuf (replicate (length r.rbuf) 0) in
      rw e (record {
        valid = (v.0, omega (arith, sum));
        kept = slice-append_right r.rbuf _ r.pos r.filled v.0 v.1;
        size = omega (arith, sum);
      })
]

grown_room :
    (r : RespParser)
    → IsValid r
    → 1024 ≤ length r.rbuf
    → 1024 ≤ length (grown r).rbuf - (grown r).filled
unfolding grown
grown_room r v h = ground (
  arith,
  length-append r.rbuf (replicate (length r.rbuf) 0),
  length-replicate (length r.rbuf) (let z : ℕ = 0 in z),
)

-- From a valid state with a buffer of a kilobyte or more, `read_buf` returns room for 1024 bytes or
-- more, in a valid state whose bytes read and not parsed are the same.
pub read_buf_room :
    (r : RespParser)
    → IsValid r
    → 1024 ≤ length r.rbuf
    → (1024 ≤ length (read_buf r).rbuf - (read_buf r).filled)
      × IsValid (read_buf r)
      × (unread (read_buf r) ≡ unread r)
unfolding read_buf
read_buf_room r v h = elim (Bool-cases (ltb (length r.rbuf - r.filled) 1024)) [
  | inr e ↦ rw e (ground arith, v, refl)
  | inl e ↦
      let c = compacted-Refilled r v in
      let g = grown-Refilled (compacted r) c.valid in
      rw e (grown_room (compacted r) c.valid (omega (arith, c.size)), g.valid, g.kept ∙ c.kept)
]

scan_line_bare :
    (m : Memchr) (r : RespParser) (pre post : Bytes) (have : ℕ)
    → Faces r pre (b'*' ∷ 10 ∷ post) (2 + have)
    → scan_line m r ≡ some (length pre, length pre, record r { pos = length pre + 2 })
unfolding scan_line
scan_line_bare m r pre post have faces =
    let window : slice r.rbuf r.pos r.filled ≡ b'*' ∷ 10 ∷ take have post =
      subst₃ (λ (b : Bytes) (p f : ℕ). slice b p f ≡ b'*' ∷ 10 ∷ take have post) (sym faces.buffer)
        (sym faces.position) (omega (arith, faces.level))
        (slice-append pre (b'*' ∷ []) (10 ∷ post) (suc have)) in
    let found : m.find 10 (slice r.rbuf r.pos r.filled) ≡ some 1 =
      rw window (m.find_first 10 (b'*' ∷ []) (take have post) (omega arith, tt)) in
    ground (arith, found, faces.position)

-- A command that begins with `*` and a bare newline makes `parse_one` slice from behind the end of
-- the line, so that the thread panics, whatever follows.
pub parse_one_bare_newline :
    (m : Memchr) (r : RespParser) (pre post : Bytes)
    → r.rbuf ≡ pre ++ b'*' ∷ 10 ∷ post
    → r.pos ≡ length pre
    → length pre + 2 ≤ r.filled
    → (parse_one m r).0 ≡ panic
unfolding parse_one header after_line after_count
parse_one_bare_newline m r pre post buffer position level =
    let r0 = record r { parts_raw = [] } in
    let line =
      scan_line_bare m r0 pre post (r.filled - length pre - 2)
        (record { buffer = buffer; position = position; level = omega arith }) in
    let sigil : get_elem? r.rbuf (length pre) ≡ some b'*' =
      rw buffer (get_elem?-append pre (10 ∷ post) b'*') in
    ground (arith, line, sigil)
