-- ===== src/Util/Decides.antt =====
-- `glob_match_bytes` against `Matches`: it always ends, a match that it reports is one, and it finds
-- every match of a text without `*`.
use flash_db.Base.{
  ℕ, zero, suc, ◌+◌, ◌*◌, ◌≤◌, ◌<◌, ◌≡◌, ◌≢◌, inl, inr, Bool, true, false, ◌||◌, Option, none, some,
  [], ◌∷◌, Bytes, length, ◌==◌, Bool-cases, arith,
}
use flash_db.Util.{Back, Round, only_stars, retry, glob_loop}
use flash_db.Util.Glob.{
  star, item_of, items, Accepts, Matches, nil, one, skip, take, Lacks, one_inv, star_inv, star_nil,
  nil_inv, two_stars, drop_both,
}

-- The run ended; `true` is right, and so is `false` under `H`.
abbrev Verdict : Type 0 → Type 0 → Option Bool → Type 0
Verdict H G none = ⊥
Verdict H G (some true) = G
Verdict H G (some false) = H → ¬ G

only_stars_sound : (p : Bytes) → only_stars p ≡ true → Matches (items p) []
unfolding only_stars
only_stars_sound [] h = nil
only_stars_sound (b ∷ p) h = elim (Bool-cases (b == b'*')) [
  | inl e ↦ rw e (skip (only_stars_sound p (ground arith)))
  | inr e ↦ absurd (ground arith)
]

only_stars_complete : (p : Bytes) → only_stars p ≡ false → ¬ Matches (items p) []
unfolding only_stars
only_stars_complete [] h d = cc
only_stars_complete (b ∷ p) h d = elim (Bool-cases (b == b'*')) [
  | inl e ↦ only_stars_complete p (ground arith) (star_nil (rw e at d))
  | inr e ↦ ground (arith, nil_inv d)
]

accepted :
    (b c : ℕ)
    → ((b == b'?') || (b == c)) ≡ true
    → c ≢ b'*'
    → Accepts (item_of b) c × (item_of b ≢ star)
accepted b c h n = ground arith

rejected :
    (b c : ℕ) → ((b == b'?') || (b == c)) ≡ false → (b == b'*') ≡ false → ¬ Accepts (item_of b) c
rejected b c h n a = ground arith

ordinary : (b : ℕ) → (b == b'*') ≡ false → item_of b ≢ star
ordinary b h = ground arith

no_pattern : {c : ℕ} {s : Bytes} → ¬ Matches [] (c ∷ s)
no_pattern d = elim d [ ]

step_sound :
    (b c : ℕ) (p s : Bytes)
    → ((b == b'?') || (b == c)) ≡ true
    → Matches (items p) s
    → Matches (items (b ∷ p)) (c ∷ s)
step_sound b c p s h d = elim (Bool-cases (b == b'*')) [
  | inl e ↦ rw e (take (skip d))
  | inr e ↦ one (ground arith) d
]

-- `G` is the question asked at the start and `H` the condition under which a `false` is right. The
-- patterns in play are shorter than `k`, and `m` bounds the text that a retry can start from.
module _ (H G : Type 0) (k : ℕ) where
  record IsRestart (m : ℕ) (p s : Bytes) : Type 0 where
    sound : Matches (star ∷ items p) s → G
    whole : H → G → Matches (star ∷ items p) s
    clean : H → Lacks b'*' s
    text : length s ≤ m
    pattern_fits : length p < k

  abbrev Saved : ℕ → Bytes → Bytes → Back → Type 0
  Saved m p s none = H → G → Matches (items p) s
  Saved m p s (some (bp, bs)) =
      IsRestart m bp bs × (H → Matches (items bp) bs → Matches (items p) s) × (length s ≤ length bs)

  record Inv (f m : ℕ) (p s : Bytes) (back : Back) : Type 0 where
    sound : Matches (items p) s → G
    whole : H → G → Matches (star ∷ items p) s
    clean : H → Lacks b'*' s
    saved : Saved m p s back
    text : length s ≤ m
    pattern_fits : length p < k
    fuel : m * k + length p < f

  Inv-restart :
      {f m : ℕ} {p s : Bytes} → IsRestart m p s → m * k + length p < f → Inv f m p s (some (p, s))
  Inv-restart r h = record {
    sound = λ d. r.sound (skip d);
    whole = r.whole;
    clean = r.clean;
    saved = (r, λ _ d. d, omega arith);
    text = r.text;
    pattern_fits = r.pattern_fits;
    fuel = h;
  }

  Saved-step :
      (m b c : ℕ) (p s : Bytes) (back : Back)
      → (H → item_of b ≢ star)
      → Saved m (b ∷ p) (c ∷ s) back
      → Saved m p s back
  Saved-step m b c p s none ns h = λ x g. (one_inv (ns x) (h x g)).1
  Saved-step m b c p s (some (bp, bs)) ns (r, down, shorter) =
      (r, λ x d. (one_inv (ns x) (down x d)).1, omega arith)

  Inv-step :
      {f m b c : ℕ} {p s : Bytes} {back : Back}
      → ((b == b'?') || (b == c)) ≡ true
      → Inv (suc f) m (b ∷ p) (c ∷ s) back
      → Inv f m p s back
  Inv-step {m} {b} {c} {p} {s} {back} h i =
      let ns : H → item_of b ≢ star = λ x. (accepted b c h (i.clean x).0).1 in
      record {
        sound = λ d. i.sound (step_sound b c p s h d);
        whole = λ x g. drop_both (ns x) (i.whole x g);
        clean = λ x. (i.clean x).1;
        saved = Saved-step m b c p s back ns i.saved;
        text = omega arith;
        pattern_fits = omega arith;
        fuel = omega arith;
      }

  -- The saved star takes one byte more.
  retry-Verdict :
      {f c : ℕ} {p s : Bytes} (m : ℕ) (back : Back) (next : Round)
      → ((m' : ℕ) (p' s' : Bytes) (b : Back) → Inv f m' p' s' b → Verdict H G (next p' s' b))
      → Inv (suc f) m p (c ∷ s) back
      → (H → ¬ Matches (items p) (c ∷ s))
      → Verdict H G (retry back next)
  unfolding retry
  retry-Verdict m none next ih i no_match = λ x g. no_match x (i.saved x g)
  retry-Verdict m (some (bp, [])) next ih i no_match = absurd (omega (arith, i.saved.2))
  retry-Verdict zero (some (bp, b ∷ bs)) next ih i no_match = absurd (omega (arith, i.saved.0.text))
  retry-Verdict (suc m) (some (bp, b ∷ bs)) next ih i no_match =
      let (r, down, shorter) = i.saved in
      ih m bp bs (some (bp, bs)) (
        Inv-restart
          (record {
            sound = λ d. r.sound (take d);
            whole = λ x g. elim (star_inv (r.whole x g)) [
              | inl d ↦ absurd (no_match x (down x d))
              | inr d ↦ d
            ];
            clean = λ x. (r.clean x).1;
            text = omega (arith, r.text);
            pattern_fits = r.pattern_fits;
          })
          (omega (arith, i.fuel, r.pattern_fits)))

  star_IsRestart :
      {f m b c : ℕ} {p s : Bytes} {back : Back}
      → (b == b'*') ≡ true
      → Inv f m (b ∷ p) (c ∷ s) back
      → IsRestart m p (c ∷ s)
  star_IsRestart e i = record {
    sound = λ d. i.sound (rw e d);
    whole = λ x g. two_stars (rw e at (i.whole x g));
    clean = i.clean;
    text = i.text;
    pattern_fits = omega (arith, i.pattern_fits);
  }

  loop-Verdict :
      (f m : ℕ) (p s : Bytes) (back : Back) → Inv f m p s back → Verdict H G (glob_loop f p s back)
  unfolding glob_loop
  loop-Verdict zero m p s back i = absurd (omega (arith, i.fuel))
  loop-Verdict (suc f) m p [] back i = elim (Bool-cases (only_stars p)) [
    | inl e ↦ rw e (i.sound (only_stars_sound p e))
    | inr e ↦ rw e (λ x g. only_stars_complete p e (star_nil (i.whole x g)))
  ]
  loop-Verdict (suc f) m [] (c ∷ s) back i =
      retry-Verdict m back (glob_loop f) (loop-Verdict f) i (λ x d. no_pattern d)
  loop-Verdict (suc f) m (b ∷ p) (c ∷ s) back i = elim (Bool-cases ((b == b'?') || (b == c))) [
    | inl e ↦ rw e (loop-Verdict f m p s back (Inv-step e i))
    | inr e ↦ elim (Bool-cases (b == b'*')) [
      | inl e' ↦
          rw (e, e')
            (loop-Verdict f m p (c ∷ s) (some (p, c ∷ s))
              (Inv-restart (star_IsRestart e' i) (omega (arith, i.fuel))))
      | inr e' ↦
          rw (e, e')
            (retry-Verdict m back (glob_loop f) (loop-Verdict f) i
              (λ x d. rejected b c e e' (one_inv (ordinary b e') d).0))
    ]
  ]

Inv-start :
    (p s : Bytes)
    → Inv
        (Lacks b'*' s)
        (Matches (items p) s)
        (length p + 1)
        ((length s + 1) * (length p + 1))
        (length s)
        p
        s
        none
Inv-start p s = record {
  sound = λ d. d;
  whole = λ x g. skip g;
  clean = λ x. x;
  saved = λ x g. g;
  text = omega arith;
  pattern_fits = omega arith;
  fuel = omega arith;
}

pub loop_start-Verdict :
    (p s : Bytes)
    → Verdict
        (Lacks b'*' s)
        (Matches (items p) s)
        (glob_loop ((length s + 1) * (length p + 1)) p s none)
loop_start-Verdict p s = loop-Verdict _ _ (length p + 1) _ (length s) p s none (Inv-start p s)
