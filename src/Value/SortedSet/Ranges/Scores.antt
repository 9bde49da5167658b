-- ===== src/Value/SortedSet/Ranges/Scores.antt =====
-- Ranges of scores of a sorted set in order.
use mathlib.Core.Path.{subst}
use flash_db.Base.{
  ℕ, suc, ◌+◌, ◌-◌, ◌^◌, ◌≤◌, ◌<◌, ◌≡◌, refl, sym, ap, ◌∙◌, inl, inr, Bool, true, false, not, ◌&&◌,
  ◌||◌, some, List, [], ◌∷◌, length, take, drop, take-append-drop, leb, if◌then◌else◌, Bool-cases,
  arith,
}
use flash_db.Base.Int.{ℤ, ltb_ℤ, eqb_ℤ}
use flash_db.Value.Float.{F64, is_nan, key, lt, eq, le}
use flash_db.Value.SortedSet.{ZEntry, ZSetData, precedes, partition_point}
use flash_db.Value.SortedSet.Order.{either, and_parts, lt-lt, lt-eq, eq-lt, eq-eq}
use flash_db.Value.SortedSet.Places.{before, IsBelow, IsOrdered}
use flash_db.Value.SortedSet.Ranges.{
  slice, score_start, score_end, range_by_score, count_in_score_range, filtered, drained,
  remove_range_by_score,
}

-- An entry that is before another has no greater score.
pub before-le : (e x : ZEntry) → before e x ≡ true → le e.score x.score ≡ true
unfolding precedes
before-le e x h = elim (either (lt e.score x.score) (eq e.score x.score && _) h) [
  | inl a ↦ rw a refl
  | inr a ↦ or_true (lt e.score x.score) (and_parts (eq e.score x.score) _ a).0
]
  where
    or_true : (a : Bool) {b : Bool} → b ≡ true → (a || b) ≡ true
    or_true true h = refl
    or_true false h = h

pub le-lt : (a b c : F64) → le a b ≡ true → lt b c ≡ true → lt a c ≡ true
le-lt a b c h k = elim (either (lt a b) (eq a b) h) [
  | inl x ↦ lt-lt a b c x k
  | inr x ↦ eq-lt a b c x k
]

pub le-le : (a b c : F64) → le a b ≡ true → le b c ≡ true → le a c ≡ true
le-le a b c h k = elim (either (lt b c) (eq b c) k) [
  | inl y ↦ rw (le-lt a b c h y) refl
  | inr y ↦ elim (either (lt a b) (eq a b) h) [
    | inl x ↦ rw (lt-eq a b c x y) refl
    | inr x ↦ or_true (lt a c) (eq-eq a b c x y)
  ]
]
  where
    or_true : (a : Bool) {b : Bool} → b ≡ true → (a || b) ≡ true
    or_true true h = refl
    or_true false h = h

abbrev pub in_scores : F64 → F64 → ZEntry → Bool
in_scores min_ max_ e = not (lt e.score min_) && le e.score max_

-- Bounds that cut out exactly the entries with a score in the range.
pub record Cuts (a b : F64) (v : List ZEntry) (s t : ℕ) : Type 0 where
  pub inside : take (t - s) (drop s v) ≡ filtered (in_scores a b) v
  pub outside : drained s t v ≡ filtered (λ e. not (in_scores a b e)) v
  pub counts : t ≡ s + length (filtered (in_scores a b) v)
  pub ends : t ≤ length v

shift : (s t : ℕ) → suc t - suc s ≡ t - s
shift s t = omega arith

cut_sub : (t : ℕ) → suc t - 0 ≡ suc (t - 0)
cut_sub t = omega arith

module _ (a b : F64) (e : ZEntry) (v : List ZEntry) where
  cut_below :
      (s t : ℕ) → in_scores a b e ≡ false → Cuts a b v s t → Cuts a b (e ∷ v) (suc s) (suc t)
  unfolding filtered
  cut_below s t h c = record {
    inside = rw h (ap (λ n. take n (drop s v)) (shift s t) ∙ c.inside);
    outside = rw h (ap (◌∷◌ e) c.outside);
    counts = rw h (omega (arith, c.counts));
    ends = omega (arith, c.ends);
  }

  cut_inside : (t : ℕ) → in_scores a b e ≡ true → Cuts a b v 0 t → Cuts a b (e ∷ v) 0 (suc t)
  unfolding filtered
  cut_inside t h c = record {
    inside = rw h (ap (λ n. take n (e ∷ v)) (cut_sub t) ∙ ap (◌∷◌ e) c.inside);
    outside = rw h (c.outside);
    counts = rw h (omega (arith, c.counts));
    ends = omega (arith, c.ends);
  }

  cut_above : in_scores a b e ≡ false → Cuts a b v 0 0 → Cuts a b (e ∷ v) 0 0
  unfolding filtered
  cut_above h c = record {
    inside = rw h (c.inside);
    outside = rw h (ap (◌∷◌ e) c.outside);
    counts = rw h (c.counts);
    ends = omega arith;
  }

clash : {x : Bool} → x ≡ true → x ≡ false → ⊥
clash h k = cc

score_start-zero :
    (a : F64) (e : ZEntry) (v : List ZEntry)
    → IsBelow e v
    → lt e.score a ≡ false
    → score_start a v ≡ 0
unfolding score_start partition_point
score_start-zero a e [] w h = refl
score_start-zero a e (x ∷ v) w h = elim (Bool-cases (lt x.score a)) [
  | inl k ↦ absurd (clash (le-lt e.score x.score a (before-le e x w.0) k) h)
  | inr k ↦ rw k refl
]

score_end-zero :
    (b : F64) (e : ZEntry) (v : List ZEntry)
    → IsBelow e v
    → le e.score b ≡ false
    → score_end b v ≡ 0
unfolding score_end partition_point
score_end-zero b e [] w h = refl
score_end-zero b e (x ∷ v) w h = elim (Bool-cases (le x.score b)) [
  | inl k ↦ absurd (clash (le-le e.score x.score b (before-le e x w.0) k) h)
  | inr k ↦ rw k refl
]

pub scores-Cuts :
    (a b : F64) (v : List ZEntry)
    → le a b ≡ true
    → IsOrdered v
    → Cuts a b v (score_start a v) (score_end b v)
unfolding score_start score_end partition_point filtered
scores-Cuts a b [] h w = record { inside = refl; outside = refl; counts = refl; ends = omega arith }
scores-Cuts a b (e ∷ v) h w =
    let c = scores-Cuts a b v h w.3 in
    elim (Bool-cases (lt e.score a)) [
      | inl k ↦
          let m = lt-le e.score a b k h in
          rw (k, m) (cut_below a b e v (score_start a v) (score_end b v) (rw k refl) c)
      | inr k ↦
          let c0 = subst (λ s. Cuts a b v s (score_end b v)) (score_start-zero a e v w.2 k) c in
          elim (Bool-cases (le e.score b)) [
            | inl m ↦ rw (k, m) (cut_inside a b e v (score_end b v) (rw (k, m) refl) c0)
            | inr m ↦
                rw (k, m)
                  (cut_above a b e v (rw (k, m) refl)
                    (subst (λ t. Cuts a b v 0 t) (score_end-zero b e v w.2 m) c0))
          ]
    ]
  where
    lt-le : (x y z : F64) → lt x y ≡ true → le y z ≡ true → le x z ≡ true
    lt-le x y z p q = le-le x y z (rw p refl) q

-- The test `not (score < min)` is `min <= score` on numbers that are no NaN.
pub not-lt-le : (x y : F64) → is_nan x ≡ false → is_nan y ≡ false → not (lt x y) ≡ le y x
unfolding lt eq
not-lt-le x y n m = rw (n, m) (keys (key x) (key y))
  where
    keys : (i j : ℤ) → not (ltb_ℤ i j) ≡ (ltb_ℤ j i || eqb_ℤ j i)
    keys i j = ground arith

abbrev pub between : F64 → F64 → ZEntry → Bool
between min_ max_ e = le min_ e.score && le e.score max_

filtered-between :
    (a b : F64) (v : List ZEntry)
    → is_nan a ≡ false
    → IsOrdered v
    → (filtered (in_scores a b) v ≡ filtered (between a b) v)
      × (filtered (λ e. not (in_scores a b e)) v ≡ filtered (λ e. not (between a b e)) v)
unfolding filtered
filtered-between a b [] n w = (refl, refl)
filtered-between a b (e ∷ v) n w =
    let l = filtered-between a b v n w.3 in rw (not-lt-le e.score a w.0 n, l.0, l.1) (refl, refl)

le-not_nan : (a b : F64) → le a b ≡ true → is_nan a ≡ false
unfolding lt eq
le-not_nan a b h = first (is_nan a) (is_nan b) (ltb_ℤ (key a) (key b)) (eqb_ℤ (key a) (key b)) h
  where
    first :
        (x y k l : Bool) → ((not x && (not y && k)) || (not x && (not y && l))) ≡ true → x ≡ false
    first true y k l h = ground arith
    first false y k l h = refl

cut_slice :
    (s t : ℕ) (v : List ZEntry)
    → s ≤ t
    → t ≤ length v
    → slice s t v ≡ some (take (t - s) (drop s v))
unfolding slice
cut_slice s t v h k = ground arith

abbrev with_entries : ZSetData → List ZEntry → ℕ → ZSetData × ℕ
with_entries z v n = (record z { entries = v }, n)

-- `drain` of an empty range changes nothing.
remaining :
    (z : ZSetData) (s t : ℕ)
    → s ≤ t
    → (if leb t s
        then with_entries z z.entries 0
        else with_entries z (drained s t z.entries) (t - s))
      ≡ with_entries z (drained s t z.entries) (t - s)
remaining z s t h = elim (Bool-cases (leb t s)) [
  | inl k ↦
      let e : s ≡ t = ground arith in
      rw (k, ← e)
        (ap (λ v. with_entries z v 0) (sym (take-append-drop s z.entries))
          ∙ ap (with_entries z (drained s s z.entries)) (omega arith))
  | inr k ↦ rw k refl
]

-- On a sorted set in order of fewer than 2 ^ 64 entries, and bounds of which the lower is not above
-- the upper: the range of scores is the entries between the bounds, both included, their count is
-- counted, and removing the range leaves the others and returns how many it took.
pub ranges_lem :
    (z : ZSetData) (a b : F64)
    → le a b ≡ true
    → IsOrdered z.entries
    → length z.entries < 2 ^ 64
    → (range_by_score z a b ≡ some (filtered (between a b) z.entries))
      × (count_in_score_range z a b ≡ length (filtered (between a b) z.entries))
      × ((remove_range_by_score z a b).0.entries ≡ filtered (λ e. not (between a b e)) z.entries)
      × ((remove_range_by_score z a b).1 ≡ length (filtered (between a b) z.entries))
unfolding range_by_score count_in_score_range remove_range_by_score slice
ranges_lem z a b h w n =
    let v = z.entries in
    let s = score_start a v in
    let t = score_end b v in
    let f = filtered-between a b v (le-not_nan a b h) w in
    let c = scores-Cuts a b v h w in
    let d = remaining z s t (omega (arith, c.counts)) in
    (
      cut_slice s t v (omega (arith, c.counts)) c.ends ∙ ap some (c.inside ∙ f.0),
      omega (arith, c.counts, c.ends, n, ap length f.0),
      ap (λ r. r.0.entries) d ∙ c.outside ∙ f.1,
      ap (λ r. r.1) d ∙ omega (arith, c.counts, ap length f.0),
    )
