-- ===== src/Value/SortedSet/Ends.antt =====
-- The last entry of a vector in order.
use flash_db.Base.{
  Bool-cases, inl, inr, not, ◌&&◌, ◌≡◌, refl, sym, ap, ◌∙◌, Bool, true, false, ◌||◌, Option, none,
  some, List, [], ◌∷◌, ◌++◌, Bytes, ◌=ₛ◌, eq_refl, flip_false, if◌then◌else◌, arith,
}
use mathlib.Core.Path.{subst}
use flash_db.Value.Float.{F64, lt, eq}
use flash_db.Value.SortedSet.{
  ZEntry, ltb_str, precedes, place_at, goes_last, split_last, find_score, listed,
}
use flash_db.Value.SortedSet.Order.{either, and_parts, ltb_str_total, precedes_trans}
use flash_db.Value.SortedSet.Places.{
  before, IsBelow, IsOrdered, place, place_at-place, neither, Taken, head-Taken, later-Taken,
}

abbrev pub SplitPost : List ZEntry → Option (ZEntry × List ZEntry) → Type 0
SplitPost v none = v ≡ []
SplitPost v (some (l, w)) = v ≡ w ++ l ∷ []

pub split_last-SplitPost : (v : List ZEntry) → SplitPost v (split_last v)
unfolding split_last
split_last-SplitPost [] = refl
split_last-SplitPost (e ∷ v) = longer (split_last v) (split_last-SplitPost v)
  where
    longer :
        (o : Option (ZEntry × List ZEntry))
        → SplitPost v o
        → SplitPost (e ∷ v) (elim o [ none ↦ some (e, []) | some (l, w) ↦ some (l, e ∷ w) ])
    longer none p = ap (◌∷◌ e) p
    longer (some (l, w)) p = ap (◌∷◌ e) p

pub listed-append : (m : Bytes) (v w : List ZEntry) → listed m (v ++ w) ≡ (listed m v || listed m w)
unfolding listed
listed-append m [] w = refl
listed-append m (e ∷ v) w =
    ap (λ b. (e.member =ₛ m) || b) (listed-append m v w)
    ∙ or_assoc (e.member =ₛ m) (listed m v) (listed m w)
  where
    or_assoc : (a b c : Bool) → (a || (b || c)) ≡ ((a || b) || c)
    or_assoc true b c = refl
    or_assoc false b c = refl

IsBelow-front : (e : ZEntry) (w v : List ZEntry) → IsBelow e (w ++ v) → IsBelow e w
IsBelow-front e [] v b = tt
IsBelow-front e (y ∷ w) v b = (b.0, IsBelow-front e w v b.1)

before-last : (e l : ZEntry) (w : List ZEntry) → IsBelow e (w ++ l ∷ []) → before e l ≡ true
before-last e l [] b = b.0
before-last e l (y ∷ w) b = before-last e l w b.1

-- Taking the last entry off, and its score.
pub Taken-last :
    (l : ZEntry) (w : List ZEntry)
    → IsOrdered (w ++ l ∷ [])
    → Taken l.member (w ++ l ∷ []) w × (find_score l.member (w ++ l ∷ []) ≡ some l.score)
unfolding find_score listed
Taken-last l [] o = (head-Taken l.member l [] (eq_refl l.member) o, rw (eq_refl l.member) refl)
Taken-last l (e ∷ w) o =
    let n =
      neither (listed e.member w) (listed e.member (l ∷ []))
        (sym (listed-append e.member w (l ∷ [])) ∙ o.1) in
    let t = Taken-last l w o.3 in
    let k = flip_false l.member e.member (neither (l.member =ₛ e.member) false n.1).0 in
    (
      later-Taken l.member e (w ++ l ∷ []) w k o.0 n.0 (IsBelow-front e w (l ∷ []) o.2) t.0,
      rw k (t.1),
    )

-- An entry that the last one precedes goes behind it.
pub place_last :
    (x l : ZEntry) (w : List ZEntry)
    → IsOrdered (w ++ l ∷ [])
    → before l x ≡ true
    → place x (w ++ l ∷ []) ≡ (w ++ l ∷ []) ++ x ∷ []
place_last x l [] o h = rw h refl
place_last x l (e ∷ w) o h =
    rw (precedes_trans e.score l.score x.score e.member l.member x.member (before-last e l w o.2) h)
      (ap (◌∷◌ e) (place_last x l w o.3 h))

module _ (score : F64) (m : Bytes) where
  abbrev entry : ZEntry
  entry = record { score = score; member = m }

  last_precedes :
      (l : ZEntry)
      → (l.member =ₛ m) ≡ false
      → (lt l.score score || (eq l.score score && not (ltb_str m l.member))) ≡ true
      → before l entry ≡ true
  unfolding precedes
  last_precedes l d g =
      elim (either (lt l.score score) (eq l.score score && not (ltb_str m l.member)) g) [
        | inl h ↦ rw h refl
        | inr h ↦
            let p = and_parts (eq l.score score) (not (ltb_str m l.member)) h in
            let t = ltb_str_total m l.member (off p.1) (flip_false l.member m d) in
            at_least (lt l.score score) p.0 t
      ]
    where
      off : {b : Bool} → not b ≡ true → b ≡ false
      off {b = true} h = ground arith
      off {b = false} h = refl

      at_least : (a : Bool) {b c : Bool} → b ≡ true → c ≡ true → (a || (b && c)) ≡ true
      at_least true h k = refl
      at_least false h k = rw (h, k) refl

  appended :
      (v : List ZEntry) (o : Option (ZEntry × List ZEntry))
      → SplitPost v o
      → goes_last o score m ≡ true
      → IsOrdered v
      → listed m v ≡ false
      → v ++ entry ∷ [] ≡ place entry v
  unfolding goes_last listed
  appended v none p g w n = rw p refl
  appended v (some (l, u)) p g w n =
      let lack =
        neither (listed m u) (listed m (l ∷ []))
          (sym (listed-append m u (l ∷ [])) ∙ ap (listed m) (sym p) ∙ n) in
      rw p (
        sym (
          place_last entry l u (subst IsOrdered p w)
            (last_precedes l (neither (l.member =ₛ m) false lack.1).0 g)))

  -- Where a new member goes: behind the last entry if it may, and else to its place.
  pub new_entries :
      (v : List ZEntry)
      → IsOrdered v
      → listed m v ≡ false
      → (if goes_last (split_last v) score m then v ++ entry ∷ [] else place_at v score m)
        ≡ place entry v
  new_entries v w n = elim (Bool-cases (goes_last (split_last v) score m)) [
    | inl g ↦ rw g (appended v (split_last v) (split_last-SplitPost v) g w n)
    | inr g ↦ rw g (place_at-place v score m)
  ]
