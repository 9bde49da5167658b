-- ===== src/Parser/Scan.antt =====
-- `scan_line` and `header`: which line they find, and where they leave the position.
use flash_db.Base.{
  ℕ, ◌-◌, ◌≤◌, ◌<◌, ◌≡◌, ◌⊎◌, refl, ap, inl, inr, some, [], ◌∷◌, ◌++◌, Bytes, length, drop,
  length-append, length-take, length-drop, ◌==◌, Bool-cases, Option-cases, ==_iff, arith,
}
use flash_db.Util.Glob.{Lacks}
use flash_db.Parser.{
  Memchr, RespParser, complete, incomplete, slice, scan_line, after_line, Header, stop, number,
  header,
}

-- A byte is missing from a text, or the text splits at its first occurrence.
pub split_at_first :
    (b : ℕ) (s : Bytes) → Lacks b s ⊎ ((u : Bytes) × (t : Bytes) × Lacks b u × (s ≡ u ++ b ∷ t))
split_at_first b [] = inl tt
split_at_first b (c ∷ s) = elim (Bool-cases (c == b)) [
  | inl e ↦ inr ([], s, tt, ap (λ x. x ∷ s) ((==_iff c b).0 e))
  | inr e ↦ elim (split_at_first b s) [
    | inl l ↦ inl (ground arith, l)
    | inr (u, t, l, p) ↦ inr (c ∷ u, t, (ground arith, l), ap (λ x. c ∷ x) p)
  ]
]

module _ (m : Memchr) where
  pub find-lt : (b : ℕ) (s : Bytes) (i : ℕ) → m.find b s ≡ some i → i < length s
  find-lt b s i h = elim (split_at_first b s) [
    | inl l ↦ cc (m.find_missing b s l)
    | inr (u, t, l, p) ↦ rw p (rw length-append (ground (arith, m.find_first b u t l, p)))
  ]

  -- A line that is found ends before `filled`.
  pub scan_line_bounds :
      (r : RespParser) {s e : ℕ} {r' : RespParser}
      → r.filled ≤ length r.rbuf
      → scan_line m r ≡ some (s, e, r')
      → (r' ≡ record r { pos = r'.pos }) × (r.pos < r'.pos) × (r'.pos ≤ r.filled)
  unfolding scan_line
  scan_line_bounds r h k = elim (Option-cases (m.find 10 (slice r.rbuf r.pos r.filled))) [
    | inl e ↦ ground arith
    | inr (rel, e) ↦ ground (
      arith,
      find-lt 10 (slice r.rbuf r.pos r.filled) rel e,
      length-take (r.filled - r.pos) (drop r.pos r.rbuf),
      length-drop r.pos r.rbuf,
    )
  ]

-- What a header line leaves: on a number the position has moved forward within the filled part; a
-- stop for want of input restores the position. Nothing else changes.
abbrev pub HeaderPost : RespParser → ℕ → Header → Type 0
HeaderPost r start_pos (number n r') =
    (r' ≡ record r { pos = r'.pos }) × (r.pos < r'.pos) × (r'.pos ≤ r.filled)
HeaderPost r start_pos (stop complete r') = ⊥
HeaderPost r start_pos (stop incomplete r') = r' ≡ record r { pos = start_pos }
HeaderPost r start_pos (stop _ r') = r' ≡ record r { pos = r'.pos }

after_line-HeaderPost :
    (sigil max_ start_pos s e : ℕ) (r r' : RespParser)
    → (r' ≡ record r { pos = r'.pos }) × (r.pos < r'.pos) × (r'.pos ≤ r.filled)
    → HeaderPost r start_pos (after_line sigil max_ (s, e, r'))
unfolding after_line
after_line-HeaderPost sigil max_ start_pos s e r r' h = ground arith

module _ (m : Memchr) where
  pub header-HeaderPost :
      (sigil max_ start_pos : ℕ) (r : RespParser)
      → r.filled ≤ length r.rbuf
      → HeaderPost r start_pos (header m sigil max_ start_pos r)
  unfolding header
  header-HeaderPost sigil max_ start_pos r h = elim (Option-cases (scan_line m r)) [
    | inl e ↦ rw (e, HeaderPost) refl
    | inr ((s, e, r'), p) ↦
        rw (p, HeaderPost)
          (after_line-HeaderPost sigil max_ start_pos s e r r' (scan_line_bounds m r h p))
  ]
