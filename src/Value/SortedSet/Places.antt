-- ===== src/Value/SortedSet/Places.antt =====
-- Vectors of entries in order: what putting an entry in its place, and taking one out, do to them.
use flash_db.Base.{
  ℕ, zero, suc, ◌≡◌, refl, sym, ap, ◌∙◌, inl, inr, Bool, true, false, ◌||◌, Option, none, some,
  List, [], ◌∷◌, Bytes, length, ◌=ₛ◌, eq_iff, apart, flip_false, if◌then◌else◌, Bool-cases, arith,
}
use flash_db.Value.Float.{F64, is_nan}
use flash_db.Value.SortedSet.{
  ZEntry, precedes, partition_point, find_insert_pos, position, remove_at, place_at, score_at,
  find_score, listed,
}
use flash_db.Value.SortedSet.Order.{precedes_trans, precedes_total}

abbrev pub before : ZEntry → ZEntry → Bool
before e x = precedes e.score e.member x.score x.member

abbrev pub IsBelow : ZEntry → List ZEntry → Type 0
IsBelow e [] = Unit
IsBelow e (x ∷ v) = (before e x ≡ true) × IsBelow e v

-- No score is a NaN, no member is there twice, and each entry precedes all behind it.
abbrev pub IsOrdered : List ZEntry → Type 0
IsOrdered [] = Unit
IsOrdered (e ∷ v) =
    (is_nan e.score ≡ false) × (listed e.member v ≡ false) × IsBelow e v × IsOrdered v

abbrev pub place : ZEntry → List ZEntry → List ZEntry
place x [] = x ∷ []
place x (e ∷ v) = let rest = place x v in if before e x then e ∷ rest else x ∷ e ∷ v

pub place_at-place :
    (v : List ZEntry) (score : F64) (m : Bytes)
    → place_at v score m ≡ place (record { score = score; member = m }) v
unfolding place_at find_insert_pos partition_point
place_at-place [] score m = refl
place_at-place (e ∷ v) score m = elim (Bool-cases (precedes e.score e.member score m)) [
  | inl h ↦ rw h (ap (◌∷◌ e) (place_at-place v score m))
  | inr h ↦ rw h refl
]

IsBelow-trans : (x e : ZEntry) (v : List ZEntry) → before x e ≡ true → IsBelow e v → IsBelow x v
IsBelow-trans x e [] h b = tt
IsBelow-trans x e (y ∷ v) h b = (
  precedes_trans x.score e.score y.score x.member e.member y.member h b.0,
  IsBelow-trans x e v h b.1,
)

IsBelow-place :
    (e x : ZEntry) (v : List ZEntry) → before e x ≡ true → IsBelow e v → IsBelow e (place x v)
IsBelow-place e x [] h b = (h, tt)
IsBelow-place e x (y ∷ v) h b = elim (Bool-cases (before y x)) [
  | inl k ↦ rw k (b.0, IsBelow-place e x v h b.1)
  | inr k ↦ rw k (h, b)
]

pub listed-place :
    (j : Bytes) (x : ZEntry) (v : List ZEntry)
    → listed j (place x v) ≡ ((x.member =ₛ j) || listed j v)
unfolding listed
listed-place j x [] = refl
listed-place j x (e ∷ v) = elim (Bool-cases (before e x)) [
  | inl k ↦ rw (k, listed-place j x v) (swap (e.member =ₛ j) (x.member =ₛ j) (listed j v))
  | inr k ↦ rw k refl
]
  where
    swap : (a b c : Bool) → (a || (b || c)) ≡ (b || (a || c))
    swap true true c = refl
    swap true false c = refl
    swap false b c = refl

pub neither : (a b : Bool) → (a || b) ≡ false → (a ≡ false) × (b ≡ false)
neither true b h = ground arith
neither false b h = (refl, h)

swap_ifs :
    (a b : Bool) (x y z : Option F64)
    → (a ≡ true → b ≡ true → ⊥)
    → (if a then x else if b then y else z) ≡ (if b then y else if a then x else z)
swap_ifs true true x y z h = absurd (h refl refl)
swap_ifs true false x y z h = refl
swap_ifs false b x y z h = refl

pub find_score-place :
    (j : Bytes) (x : ZEntry) (v : List ZEntry)
    → listed x.member v ≡ false
    → find_score j (place x v) ≡ (if x.member =ₛ j then some x.score else find_score j v)
unfolding find_score listed
find_score-place j x [] n = refl
find_score-place j x (e ∷ v) n =
    let d = neither (e.member =ₛ x.member) (listed x.member v) n in
    elim (Bool-cases (before e x)) [
      | inl k ↦
          rw (k, find_score-place j x v d.1)
            (swap_ifs (e.member =ₛ j) (x.member =ₛ j) (some e.score) (some x.score) (find_score j v)
              (apart e.member x.member j d.0))
      | inr k ↦ rw k refl
    ]

pub place-IsOrdered :
    (x : ZEntry) (v : List ZEntry)
    → is_nan x.score ≡ false
    → listed x.member v ≡ false
    → IsOrdered v
    → IsOrdered (place x v)
unfolding listed
place-IsOrdered x [] n l w = (n, refl, tt, tt)
place-IsOrdered x (e ∷ v) n l w =
    let d = neither (e.member =ₛ x.member) (listed x.member v) l in
    elim (Bool-cases (before e x)) [
      | inl k ↦ rw k (
        w.0,
        listed-place e.member x v ∙ rw (flip_false e.member x.member d.0) w.1,
        IsBelow-place e x v k w.2,
        place-IsOrdered x v n d.1 w.3,
      )
      | inr k ↦
          let t = precedes_total e.score x.score e.member x.member w.0 n d.0 k in
          rw k (n, l, (t, IsBelow-trans x e v t w.2), w)
    ]

pub length-place : (x : ZEntry) (v : List ZEntry) → length (place x v) ≡ suc (length v)
length-place x [] = refl
length-place x (e ∷ v) = elim (Bool-cases (before e x)) [
  | inl k ↦ rw k (ap suc (length-place x v))
  | inr k ↦ rw k refl
]

-- What `position` says of a member, and what taking out the entry there leaves.
pub record Taken (m : Bytes) (v w : List ZEntry) : Type 0 where
  pub ordered : IsOrdered w
  pub gone : listed m w ≡ false
  pub scores : (j : Bytes) → find_score j w ≡ (if m =ₛ j then none else find_score j v)
  pub shorter : length v ≡ suc (length w)

abbrev pub PositionPost : Bytes → List ZEntry → Option ℕ → Type 0
PositionPost m v none = (listed m v ≡ false) × (find_score m v ≡ none)
PositionPost m v (some i) =
    (listed m v ≡ true)
    × (find_score m v ≡ some (score_at i v))
    × (IsOrdered v → Taken m v (remove_at i v))

pub unlisted_score : (m : Bytes) (v : List ZEntry) → listed m v ≡ false → find_score m v ≡ none
unfolding listed find_score
unlisted_score m [] h = refl
unlisted_score m (e ∷ v) h =
    let d = neither (e.member =ₛ m) (listed m v) h in rw d.0 (unlisted_score m v d.1)

pub listed-find_score :
    (m : Bytes) (v : List ZEntry)
    → listed m v ≡ (elim (find_score m v) [ none ↦ false | some score ↦ true ])
unfolding listed find_score
listed-find_score m [] = refl
listed-find_score m (e ∷ v) = elim (Bool-cases (e.member =ₛ m)) [
  | inl k ↦ rw k refl
  | inr k ↦ rw k (listed-find_score m v)
]

IsBelow-remove_at : (e : ZEntry) (i : ℕ) (v : List ZEntry) → IsBelow e v → IsBelow e (remove_at i v)
IsBelow-remove_at e zero [] b = tt
IsBelow-remove_at e (suc i) [] b = tt
IsBelow-remove_at e zero (y ∷ v) b = b.1
IsBelow-remove_at e (suc i) (y ∷ v) b = (b.0, IsBelow-remove_at e i v b.1)

unlisted-remove_at :
    (m : Bytes) (i : ℕ) (v : List ZEntry) → listed m v ≡ false → listed m (remove_at i v) ≡ false
unfolding listed
unlisted-remove_at m zero [] h = refl
unlisted-remove_at m (suc i) [] h = refl
unlisted-remove_at m zero (y ∷ v) h = (neither (y.member =ₛ m) (listed m v) h).1
unlisted-remove_at m (suc i) (y ∷ v) h =
    let d = neither (y.member =ₛ m) (listed m v) h in rw d.0 (unlisted-remove_at m i v d.1)

pub head-Taken :
    (m : Bytes) (e : ZEntry) (v : List ZEntry)
    → (e.member =ₛ m) ≡ true
    → IsOrdered (e ∷ v)
    → Taken m (e ∷ v) v
unfolding find_score
head-Taken m e v k w =
    let same = (eq_iff e.member m).0 k in
    let gone = ap (λ t. listed t v) (sym same) ∙ w.1 in
    record {
      ordered = w.3;
      gone = gone;
      scores = λ j. elim (Bool-cases (m =ₛ j)) [
        | inl q ↦ rw q (unlisted_score j v (ap (λ t. listed t v) (sym ((eq_iff m j).0 q)) ∙ gone))
        | inr q ↦ rw (q, ap (λ t. t =ₛ j) same ∙ q) refl
      ];
      shorter = refl;
    }

pub later-Taken :
    (m : Bytes) (e : ZEntry) (v w : List ZEntry)
    → (e.member =ₛ m) ≡ false
    → is_nan e.score ≡ false
    → listed e.member w ≡ false
    → IsBelow e w
    → Taken m v w
    → Taken m (e ∷ v) (e ∷ w)
unfolding listed find_score
later-Taken m e v w k n l b t = record {
  ordered = (n, l, b, t.ordered);
  gone = rw k (t.gone);
  scores = λ j. rw (t.scores j) (
      swap_ifs (e.member =ₛ j) (m =ₛ j) (some e.score) none (find_score j v)
        (apart e.member m j k));
  shorter = ap suc t.shorter;
}

pub position-PositionPost : (m : Bytes) (v : List ZEntry) → PositionPost m v (position m v)
unfolding position listed find_score score_at
position-PositionPost m [] = (refl, refl)
position-PositionPost m (e ∷ v) = elim (Bool-cases (e.member =ₛ m)) [
  | inl k ↦ rw k (rw k refl, rw k refl, head-Taken m e v k)
  | inr k ↦ rw k (later k (position m v) (position-PositionPost m v))
]
  where
    later :
        (e.member =ₛ m) ≡ false
        → (o : Option ℕ) → PositionPost m v o
        → PositionPost m (e ∷ v) (elim o [ none ↦ none | some i ↦ some (suc i) ])
    later k none p = rw k p
    later k (some i) p = (
      rw k (p.0),
      rw k (p.1),
      λ w.
          later-Taken m e v (remove_at i v) k w.0 (unlisted-remove_at e.member i v w.1)
            (IsBelow-remove_at e i v w.2) (p.2 w.3),
    )
