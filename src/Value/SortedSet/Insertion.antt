-- ===== src/Value/SortedSet/Insertion.antt =====
-- What `insert` does to a sorted set in order.
use mathlib.Core.Path.{subst}
use flash_db.Base.{
  ℕ, ◌+◌, ◌<◌, ◌≡◌, refl, sym, ap, ◌∙◌, inl, inr, Bool, true, false, not, ◌||◌, Option, none, some,
  List, [], ◌∷◌, ◌++◌, Bytes, length, ◌=ₛ◌, eq_refl, eq_iff, if◌then◌else◌, Bool-cases, arith,
}
use flash_db.Value.Float.{F64, is_nan, Rounding}
use flash_db.Value.SortedSet.{
  ZEntry, ZSetData, len, member_hash, position, place_at, remove_at, score_at, split_last,
  goes_last, find_score, listed, get_score, contains, insert_new, insert_listed, insert_checked,
  insert, bloom_set, bloom_maybe_contains, bloom_grow_if_needed,
}
use flash_db.Value.SortedSet.Places.{
  IsOrdered, place_at-place, find_score-place, place-IsOrdered, length-place, unlisted_score, Taken,
  PositionPost, position-PositionPost,
}
use flash_db.Value.SortedSet.Ends.{
  SplitPost, split_last-SplitPost, listed-append, Taken-last, new_entries,
}
use flash_db.Value.SortedSet.Bloom.{
  Covers, Covers-listed, Covers-place, Covers-remove_at, Covers-bloom_set, bloom_set-finds,
  length-bloom_set, bloom_grow_if_needed_lem,
}

-- The entries are in order, and the filter finds all their members.
abbrev pub IsZSet : ZSetData → Type 0
IsZSet z = IsOrdered z.entries × (0 < length z.bloom) × Covers z.bloom z.entries

-- A member that is there keeps its score if the new one is within an epsilon of it.
abbrev pub settled : Rounding → Option F64 → F64 → F64
settled r none score = score
settled r (some old) score = if r.far old score then score else old

-- What `insert` makes of a sorted set, and returns.
pub record Inserted (r : Rounding) (z : ZSetData) (score : F64) (m : Bytes) (done : ZSetData × Bool)
    : Type 0 where
  pub whole : IsZSet done.0
  pub scores :
      (j : Bytes)
      → get_score done.0 j
        ≡ (if m =ₛ j then some (settled r (get_score z m) score) else get_score z j)
  pub is_new : done.1 ≡ not (contains z m)
  pub counts : len done.0 ≡ len z + (if done.1 then 1 else 0)

Covers-front : (b : List Bool) (u v : List ZEntry) → Covers b (u ++ v) → Covers b u
Covers-front b [] v c = tt
Covers-front b (e ∷ u) v c = (c.0, Covers-front b u v c.1)

-- The last entry is the one that `position` finds for its member.
last_found :
    (m : Bytes) (l : ZEntry) (u : List ZEntry) (b : List Bool) (v : List ZEntry)
    → v ≡ u ++ l ∷ []
    → l.member ≡ m
    → IsOrdered v
    → Covers b v
    → Taken m v u × (find_score m v ≡ some l.score) × (listed m v ≡ true) × Covers b u
unfolding listed
last_found m l u b v p same w c =
    let w' = subst IsOrdered p w in
    let t = Taken-last l u w' in
    let c' = Covers-front b u (l ∷ []) (subst (Covers b) p c) in
    let k =
      listed-append l.member u (l ∷ []) ∙ rw (eq_refl l.member) (or_true (listed l.member u)) in
    subst (λ m. Taken m v u × (find_score m v ≡ some l.score) × (listed m v ≡ true) × Covers b u)
      same
      (subst
        (λ v.
          Taken l.member v u
          × (find_score l.member v ≡ some l.score)
          × (listed l.member v ≡ true)
          × Covers b u)
        (sym p) (t.0, t.1, k, c'))
  where
    or_true : (a : Bool) → (a || true) ≡ true
    or_true true = refl
    or_true false = refl

module _ (r : Rounding) (z : ZSetData) (score : F64) (m : Bytes) where
  new-Inserted :
      is_nan score ≡ false
      → IsZSet z
      → listed m z.entries ≡ false
      → find_score m z.entries ≡ none
      → Inserted r z score m (insert_new z score m, true)
  unfolding insert_new get_score contains len
  new-Inserted n w l f =
      let v = z.entries in
      let x : ZEntry = record { score = score; member = m } in
      let bits = bloom_set z.bloom (member_hash m) in
      let v' = if goes_last (split_last v) score m then v ++ x ∷ [] else place_at v score m in
      let e = new_entries score m v w.0 l in
      let c =
        Covers-place bits x v (bloom_set-finds z.bloom (member_hash m) w.1)
          (Covers-bloom_set z.bloom (member_hash m) v w.2) in
      let g =
        bloom_grow_if_needed_lem (record { entries = v'; bloom = bits })
          (omega (arith, w.1, length-bloom_set z.bloom (member_hash m)))
          (subst (Covers bits) (sym e) c) in
      let grown = bloom_grow_if_needed (record { entries = v'; bloom = bits }) in
      record {
        whole = (
          subst IsOrdered (sym (g.0 ∙ e)) (place-IsOrdered x v n l w.0),
          g.1,
          subst (Covers grown.bloom) (sym (g.0)) g.2,
        );
        scores = λ j. ap (find_score j) (g.0 ∙ e) ∙ find_score-place j x v l ∙ rw f refl;
        is_new = rw l refl;
        counts = omega (arith, ap length (g.0 ∙ e), length-place x v);
      }

  behind :
      (b : Bool) (x : Option F64) {y : Option F64} (o : Option F64)
      → y ≡ (if b then none else o)
      → (if b then x else y) ≡ (if b then x else o)
  behind true x o h = refl
  behind false x o h = h

  -- The entry of the member, with the score `old`, is out, which leaves `left`.
  moved-Inserted :
      (old : F64) (left : List ZEntry)
      → is_nan score ≡ false
      → IsZSet z
      → listed m z.entries ≡ true
      → find_score m z.entries ≡ some old
      → Taken m z.entries left
      → Covers z.bloom left
      → Inserted r z score m (
          if r.far old score
          then (record z { entries = place_at left score m }, false)
          else (z, false))
  unfolding get_score contains len
  moved-Inserted old left n w l f t c = elim (Bool-cases (r.far old score)) [
    | inl h ↦
        let x : ZEntry = record { score = score; member = m } in
        let e = place_at-place left score m in
        rw h (record {
          whole = (
            subst IsOrdered (sym e) (place-IsOrdered x left n t.gone t.ordered),
            w.1,
            subst (Covers z.bloom) (sym e)
                (Covers-place z.bloom x left (Covers-listed z.bloom z.entries m w.2 l) c),
          );
          scores = λ j.
              ap (find_score j) e
              ∙ find_score-place j x left t.gone
              ∙ rw (f, h) (behind (m =ₛ j) (some score) (find_score j z.entries) (t.scores j));
          is_new = rw l refl;
          counts = omega (arith, ap length e, length-place x left, t.shorter);
        })
    | inr h ↦ rw h (record {
      whole = w;
      scores = λ j.
          rw (f, h)
            (elim (Bool-cases (m =ₛ j)) [
              | inl q ↦ rw q (ap (λ i. find_score i z.entries) (sym ((eq_iff m j).0 q)) ∙ f)
              | inr q ↦ rw q refl
            ]);
      is_new = rw l refl;
      counts = omega arith;
    })
  ]

  listed-Inserted :
      (o : Option ℕ)
      → is_nan score ≡ false
      → IsZSet z
      → PositionPost m z.entries o
      → Inserted r z score m (insert_listed r z score m o)
  unfolding insert_listed
  listed-Inserted none n w p = new-Inserted n w (p.0) (p.1)
  listed-Inserted (some i) n w p =
      moved-Inserted (score_at i z.entries) (remove_at i z.entries) n w (p.0) (p.1) (p.2 w.0)
        (Covers-remove_at z.bloom i z.entries w.2)

  checked-Inserted :
      (o : Option (ZEntry × List ZEntry))
      → is_nan score ≡ false
      → IsZSet z
      → SplitPost z.entries o
      → Inserted r z score m (insert_checked r z score m o)
  unfolding insert_checked
  checked-Inserted none n w p =
      listed-Inserted (position m z.entries) n w (position-PositionPost m z.entries)
  checked-Inserted (some (l, u)) n w p = elim (Bool-cases (l.member =ₛ m)) [
    | inl h ↦ rw h (
        let f = last_found m l u z.bloom z.entries p ((eq_iff l.member m).0 h) w.0 w.2 in
        moved-Inserted l.score u n w f.2 f.1 f.0 f.3)
    | inr h ↦ rw h (listed-Inserted (position m z.entries) n w (position-PositionPost m z.entries))
  ]

  -- `insert` of a score that is no NaN into a sorted set in order, whose filter has no false
  -- negative, keeps it so, with every member once; the member then has the score, unless it had one
  -- within an epsilon of it, which stays; no other member's score changes; the length grows by one
  -- exactly if the member is new, which is what it returns.
  pub insert_in_order : is_nan score ≡ false → IsZSet z → Inserted r z score m (insert r z score m)
  unfolding insert
  insert_in_order n w = elim (Bool-cases (bloom_maybe_contains z.bloom (member_hash m))) [
    | inl h ↦ rw h (checked-Inserted (split_last z.entries) n w (split_last-SplitPost z.entries))
    | inr h ↦ rw h (unfound (listed m z.entries) refl h)
  ]
    where
      unfound :
          (b : Bool)
          → listed m z.entries ≡ b
          → bloom_maybe_contains z.bloom (member_hash m) ≡ false
          → Inserted r z score m (insert_new z score m, true)
      unfound true l h = absurd (clash (Covers-listed z.bloom z.entries m w.2 l) h)
        where
          clash : {a : Bool} → a ≡ true → a ≡ false → ⊥
          clash p q = cc
      unfound false l h = new-Inserted n w l (unlisted_score m z.entries l)
