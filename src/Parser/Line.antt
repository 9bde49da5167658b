-- ===== src/Parser/Line.antt =====
-- `header` in front of a header line: the sigil, the decimal digits of a number, CRLF.
use mathlib.Core.Path.{subst, subst₃}
use flash_db.Base.{
  ℕ, suc, ◌+◌, ◌≡◌, ◌≢◌, sym, ap, ◌∙◌, some, [], ◌∷◌, ◌++◌, append_assoc, Bytes, length, take,
  length-append, get_elem?, take-append, drop-append, drop-append_add, take-append_add,
  get_elem?-append, arith,
}
use flash_db.Util.Glob.{Lacks}
use flash_db.Resp.{crlf}
use flash_db.Resp.Number.Decimal.{IsDigits}
use flash_db.Parser.{Memchr, RespParser, slice, scan_line, after_line, number, header, parse_usize}

Lacks-append : (b : ℕ) (s t : Bytes) → Lacks b s → Lacks b t → Lacks b (s ++ t)
Lacks-append b [] t h k = k
Lacks-append b (c ∷ s) t h k = (h.0, Lacks-append b s t h.1 k)

Lacks-digits : (s : Bytes) → IsDigits s → Lacks 10 s
Lacks-digits [] h = tt
Lacks-digits (c ∷ s) h = (ground arith, Lacks-digits s h.1)

-- The state has `pre` behind it and `text` in front of it, and `have` bytes of that are filled.
pub record Faces (r : RespParser) (pre text : Bytes) (have : ℕ) : Type 0 where
  pub buffer : r.rbuf ≡ pre ++ text
  pub position : r.pos ≡ length pre
  pub level : r.filled ≡ length pre + have

pub slice-append :
    (pre line rest : Bytes) (n : ℕ)
    → slice (pre ++ (line ++ rest)) (length pre) (length pre + (length line + n))
      ≡ line ++ take n rest
slice-append pre line rest n = rw drop-append (
    subst (λ (k : ℕ). take k (line ++ rest) ≡ line ++ take n rest) (omega arith)
      (take-append_add line rest n))

-- One header line in front of the state: the sigil, digits and CRLF.
module _ (m : Memchr) (r : RespParser) (pre ds post : Bytes) (sigil have : ℕ)
    (not_newline : sigil ≢ 10) (digits : IsDigits ds)
    (faces : Faces r pre (sigil ∷ (ds ++ (crlf ++ post))) (length ds + 3 + have)) where
  abbrev line : Bytes
  line = sigil ∷ (ds ++ 13 ∷ [])

  buffer-line : r.rbuf ≡ pre ++ (line ++ 10 ∷ post)
  buffer-line =
      faces.buffer ∙ ap (λ x. pre ++ (sigil ∷ x)) (sym (append_assoc ds (13 ∷ []) (10 ∷ post)))

  slice-line : slice r.rbuf r.pos r.filled ≡ line ++ 10 ∷ take have post
  slice-line =
      subst₃ (λ (b : Bytes) (p f : ℕ). slice b p f ≡ line ++ 10 ∷ take have post) (sym buffer-line)
        (sym faces.position) (omega (arith, faces.level, length-append ds (13 ∷ [])))
        (slice-append pre line (10 ∷ post) (suc have))

  find-line : m.find 10 (slice r.rbuf r.pos r.filled) ≡ some (length ds + 2)
  find-line = rw slice-line (
      rw
        (m.find_first 10 line (take have post)
          (not_newline, Lacks-append 10 ds (13 ∷ []) (Lacks-digits ds digits) (omega arith)))
        (ground (arith, length-append ds (13 ∷ []))))

  scan_line-line :
      scan_line m r
      ≡ some
          (length pre, length pre + 1 + length ds, record r { pos = length pre + (length ds + 3) })
  unfolding scan_line
  scan_line-line = ground (arith, find-line, faces.position)

  sigil-line : get_elem? r.rbuf (length pre) ≡ some sigil
  sigil-line = rw faces.buffer (get_elem?-append pre (ds ++ (crlf ++ post)) sigil)

  digits-line : slice r.rbuf (length pre + 1) (length pre + 1 + length ds) ≡ ds
  digits-line = rw faces.buffer (
      rw drop-append_add (
        subst (λ (k : ℕ). take k (ds ++ (crlf ++ post)) ≡ ds) (omega arith)
          (take-append ds (crlf ++ post))))

  pub header-line :
      (start_pos bound n : ℕ)
      → parse_usize ds bound ≡ some n
      → header m sigil bound start_pos r
        ≡ number n (record r { pos = length pre + (length ds + 3) })
  unfolding header after_line
  header-line start_pos bound n h = ground (arith, scan_line-line, sigil-line, digits-line)
