-- ===== src/Store/SortedSets/Adding.antt =====
-- ZADD on a sorted set in order.
use flash_db.Base.{
  ℕ, ◌+◌, ◌≡◌, refl, sym, ap, ◌∙◌, Bool, true, false, not, ◌||◌, Option, none, some, List, [], ◌∷◌,
  Bytes, ◌=ₛ◌, eq_iff, if◌then◌else◌, arith,
}
use flash_db.Value.Float.{F64, is_nan, Rounding}
use flash_db.Value.SortedSet.{ZSetData, len, insert, get_score, contains}
use flash_db.Value.SortedSet.Places.{listed-find_score}
use flash_db.Value.SortedSet.Insertion.{IsZSet, settled, insert_in_order}
use flash_db.Store.SortedSets.{ZAddFlags, should_update, zadd_known, zadd_member, zadd_loop}

-- The scores given to ZADD are numbers.
abbrev pub AreNumbers : List (F64 × Bytes) → Type 0
AreNumbers [] = Unit
AreNumbers ((score, member) ∷ members) = (is_nan score ≡ false) × AreNumbers members

-- The score of a member after ZADD, where NX keeps the one that it had.
abbrev pub kept_by : Bool → Option F64 → Option F64 → Option F64
kept_by nx (some old) o = if nx then some old else o
kept_by nx none o = o

-- What ZADD makes of a set, whatever its options: XX adds no member, NX changes no score.
pub record Added (f : ZAddFlags) (z : ZSetData) (done : ZSetData × ℕ × ℕ) : Type 0 where
  pub whole : IsZSet done.0
  pub counts : len done.0 ≡ len z + done.1
  pub xx_adds_none : done.1 ≡ (if f.xx then 0 else done.1)
  pub nx_keeps :
      (j : Bytes) → get_score done.0 j ≡ kept_by f.nx (get_score z j) (get_score done.0 j)

same_kept : (b : Bool) (o : Option F64) → o ≡ kept_by b o o
same_kept true none = refl
same_kept true (some x) = refl
same_kept false none = refl
same_kept false (some x) = refl

free_kept : (o p : Option F64) → p ≡ kept_by false o p
free_kept none p = refl
free_kept (some x) p = refl

zero_either : (b : Bool) → ◌≡◌ {A = ℕ} 0 (if b then 0 else 0)
zero_either true = refl
zero_either false = refl

contains-get_score :
    (z : ZSetData) (m : Bytes)
    → contains z m ≡ (elim (get_score z m) [ none ↦ false | some score ↦ true ])
unfolding contains get_score
contains-get_score z m = listed-find_score m z.entries

by_if :
    {A : Type 0} (P : A → Type 0) (b : Bool) (x y : A)
    → (b ≡ true → P x)
    → (b ≡ false → P y)
    → P (if b then x else y)
by_if P true x y h k = h refl
by_if P false x y h k = k refl

-- A member without a score is not one whose score NX has to keep.
still_kept :
    (nx same : Bool) (o p fresh : Option F64)
    → (same ≡ true → o ≡ none)
    → p ≡ (if same then fresh else o)
    → p ≡ kept_by nx o p
still_kept nx same none p fresh h e = refl
still_kept false same (some x) p fresh h e = refl
still_kept true false (some x) p fresh h e = e
still_kept true true (some x) p fresh h e = absurd (scored (h refl))
  where
    scored : {x : F64} → some x ≡ none → ⊥
    scored k = cc

-- Whether a member with this score, or none, is new.
new_flag :
    (z : ZSetData) (m : Bytes) (o : Option F64) (b : Bool)
    → get_score z m ≡ o
    → b ≡ not (contains z m)
    → b ≡ (elim o [ none ↦ true | some score ↦ false ])
new_flag z m none b g e = e ∙ ap not (contains-get_score z m) ∙ rw g refl
new_flag z m (some x) b g e = e ∙ ap not (contains-get_score z m) ∙ rw g refl

module _ (r : Rounding) (f : ZAddFlags) (score : F64) (m : Bytes) (z : ZSetData) where
  unchanged-Added : IsZSet z → Added f z (z, 0, 0)
  unchanged-Added w = record {
    whole = w;
    counts = omega arith;
    xx_adds_none = zero_either f.xx;
    nx_keeps = λ j. same_kept f.nx (get_score z j);
  }

  -- A member that is not there.
  new_member-Added :
      f.xx ≡ false
      → is_nan score ≡ false
      → IsZSet z
      → get_score z m ≡ none
      → Added f z ((insert r z score m).0, 1, 0)
  new_member-Added x n w g =
      let i = insert_in_order r z score m n w in
      let c = new_flag z m none (insert r z score m).1 g i.is_new in
      record {
        whole = i.whole;
        counts = rw c at i.counts;
        xx_adds_none = rw x refl;
        nx_keeps = λ j.
            still_kept f.nx (m =ₛ j) (get_score z j) (get_score (insert r z score m).0 j)
              (some (settled r (get_score z m) score))
              (λ q. ap (get_score z) (sym ((eq_iff m j).0 q)) ∙ g) (i.scores j);
      }

  -- A member that is there, without NX.
  changed-Added :
      (old : F64)
      → f.nx ≡ false
      → is_nan score ≡ false
      → IsZSet z
      → get_score z m ≡ some old
      → Added f z ((insert r z score m).0, 0, 1)
  changed-Added old x n w g =
      let i = insert_in_order r z score m n w in
      let c = new_flag z m (some old) (insert r z score m).1 g i.is_new in
      record {
        whole = i.whole;
        counts = rw c at i.counts;
        xx_adds_none = zero_either f.xx;
        nx_keeps = λ j. rw x (free_kept (get_score z j) (get_score (insert r z score m).0 j));
      }

  known-Added :
      (o : Option F64)
      → is_nan score ≡ false
      → IsZSet z
      → get_score z m ≡ o
      → Added f z (zadd_known r f score m z o)
  unfolding zadd_known
  known-Added none n w g =
      by_if (Added f z) f.xx (z, 0, 0) ((insert r z score m).0, 1, 0) (λ x. unchanged-Added w)
        (λ x. new_member-Added x n w g)
  known-Added (some old) n w g =
      by_if (Added f z) f.nx (z, 0, 0)
        (if should_update f score old then ((insert r z score m).0, 0, 1) else (z, 0, 0))
        (λ x. unchanged-Added w)
        (λ x.
          by_if (Added f z) (should_update f score old) ((insert r z score m).0, 0, 1) (z, 0, 0)
            (λ u. changed-Added old x n w g) (λ u. unchanged-Added w))

no_flag : (a b c d : Bool) → (a || (b || (c || d))) ≡ false → (a ≡ false) × (b ≡ false)
no_flag true b c d h = ground arith
no_flag false true c d h = ground arith
no_flag false false c d h = (refl, refl)

never : {b : Bool} {A : Type 0} → b ≡ true → b ≡ false → A
never h k = absurd (clash h k)
  where
    clash : {b : Bool} → b ≡ true → b ≡ false → ⊥
    clash h k = cc

kept_trans :
    (nx : Bool) (o p q : Option F64) → p ≡ kept_by nx o p → q ≡ kept_by nx p q → q ≡ kept_by nx o q
kept_trans nx none p q h k = refl
kept_trans false (some x) p q h k = refl
kept_trans true (some x) p q h k = k ∙ ap (λ o. kept_by true o q) h

zero_or :
    (xx : Bool) (a b n : ℕ)
    → b ≡ (if xx then 0 else b)
    → n ≡ (if xx then a + b else n)
    → n ≡ (if xx then a else n)
zero_or true a b n h k = omega (arith, h, k)
zero_or false a b n h k = refl

module _ (r : Rounding) (f : ZAddFlags) where
  plain-Added :
      (score : F64) (m : Bytes) (z : ZSetData) (o : Option F64)
      → (f.nx ≡ false) × (f.xx ≡ false)
      → is_nan score ≡ false
      → IsZSet z
      → get_score z m ≡ o
      → let i = insert r z score m in Added f z (if i.1 then (i.0, 1, 0) else (i.0, 0, 1))
  plain-Added score m z none x n w g =
      let i = insert r z score m in
      let flag = new_flag z m none i.1 g ((insert_in_order r z score m n w).is_new) in
      by_if (Added f z) i.1 (i.0, 1, 0) (i.0, 0, 1) (λ e. new_member-Added r f score m z x.1 n w g)
        (never flag)
  plain-Added score m z (some old) x n w g =
      let i = insert r z score m in
      let flag = new_flag z m (some old) i.1 g ((insert_in_order r z score m n w).is_new) in
      by_if (Added f z) i.1 (i.0, 1, 0) (i.0, 0, 1) (λ e. never e flag)
        (λ e. changed-Added r f score m z old x.0 n w g)

  member-Added :
      (score : F64) (m : Bytes) (z : ZSetData)
      → is_nan score ≡ false
      → IsZSet z
      → Added f z (zadd_member r f score m z)
  unfolding zadd_member
  member-Added score m z n w =
      let i = insert r z score m in
      by_if (Added f z) (f.nx || (f.xx || (f.gt || f.lt_)))
        (zadd_known r f score m z (get_score z m)) (if i.1 then (i.0, 1, 0) else (i.0, 0, 1))
        (λ e. known-Added r f score m z (get_score z m) n w refl)
        (λ e. plain-Added score m z (get_score z m) (no_flag f.nx f.xx f.gt f.lt_ e) n w refl)

  loop_lem :
      (members : List (F64 × Bytes)) (z : ZSetData) (a c : ℕ)
      → AreNumbers members
      → IsZSet z
      → let done = zadd_loop r f members z a c in
        IsZSet done.0
        × (len done.0 + a ≡ len z + done.1)
        × (done.1 ≡ (if f.xx then a else done.1))
        × ((j : Bytes) → get_score done.0 j ≡ kept_by f.nx (get_score z j) (get_score done.0 j))
  unfolding zadd_loop
  loop_lem [] z a c n w = (w, refl, if_same f.xx a, λ j. same_kept f.nx (get_score z j))
    where
      if_same : (b : Bool) (x : ℕ) → x ≡ (if b then x else x)
      if_same true x = refl
      if_same false x = refl
  loop_lem ((score, m) ∷ members) z a c n w =
      let one = zadd_member r f score m z in
      let d = member-Added score m z n.0 w in
      let l = loop_lem members one.0 (a + one.1) (c + one.2) n.1 d.whole in
      let done = zadd_loop r f members one.0 (a + one.1) (c + one.2) in
      (
        l.0,
        omega (arith, l.1, d.counts),
        zero_or f.xx a one.1 done.1 d.xx_adds_none l.2,
        λ j.
            kept_trans f.nx (get_score z j) (get_score one.0 j) (get_score done.0 j) (d.nx_keeps j)
              (l.3 j),
      )

-- The loop of ZADD over any pairs whose scores are numbers, and with any options, keeps a sorted
-- set in order, with every member once; the set grows by the count of added members; with XX none
-- is added; and with NX every member that was there keeps its score.
pub zadd_loop_lem :
    (r : Rounding) (f : ZAddFlags) (members : List (F64 × Bytes)) (z : ZSetData)
    → AreNumbers members
    → IsZSet z
    → Added f z (zadd_loop r f members z 0 0)
zadd_loop_lem r f members z n w =
    let l = loop_lem r f members z 0 0 n w in
    record { whole = l.0; counts = omega (arith, l.1); xx_adds_none = l.2; nx_keeps = l.3 }
