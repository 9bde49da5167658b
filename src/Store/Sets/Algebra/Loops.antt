-- ===== src/Store/Sets/Algebra/Loops.antt =====
-- The loops of SUNION, SINTER and SDIFF, and the three commands.
use mathlib.Core.Path.{subst}
use flash_db.Base.{◌≡◌, refl, ap, ◌∙◌, Bool, not, ◌||◌, ◌&&◌, List, [], ◌∷◌, Bytes}
use flash_db.Value.{Clock}
use flash_db.Value.Collections.Set.{contains, iter, member_of, promote_loop}
use flash_db.Value.Collections.Set.Members.{IsDistinct}
use flash_db.Value.Collections.Set.Strings.{promote_loop_lem}
use flash_db.Value.Collections.Set.Laws.{contains-iter}
use flash_db.Store.{Store, Result, ok, err, wrong_type}
use flash_db.Store.Sets.Combine.{
  Operand, absent, no_set, members, operand, retain, union_loop, sunion, inter_loop, sinter,
  diff_loop, sdiff,
}
use flash_db.Store.Sets.Algebra.{
  any_of, all_of, Answers, not_or, and_regroup, and_none, or_regroup, or_none, and_swap, retain_lem,
  retain-IsDistinct, operand-IsOperand, AllSets, Says, said, has, wrong,
}

module _ {Z S : Type 0} (c : Clock) (s : Store Z S) where
  union_step :
      (j k : Bytes) (keys r : List Bytes) (o : Operand)
      → Says c s o k j
      → IsDistinct r
      → ((r' : List Bytes)
          → IsDistinct r'
          → Answers j
              (any_of (has c s j) keys || member_of j r')
              (any_of (wrong c s j) keys)
              (union_loop c s keys r'))
      → Answers j
          (any_of (has c s j) (k ∷ keys) || member_of j r)
          (any_of (wrong c s j) (k ∷ keys))
          (elim o [
            | absent ↦ union_loop c s keys r
            | no_set ↦ err wrong_type
            | members x ↦ union_loop c s keys (promote_loop (iter x) r)
          ])
  union_step j k keys r absent p d ih = rw p (ih r d)
  union_step j k keys r no_set p d ih = rw p (refl, refl)
  union_step j k keys r (members x) p d ih =
      let l = promote_loop_lem (iter x) r d in
      let u = union_loop c s keys (promote_loop (iter x) r) in
      rw (p.1) (
        subst (λ h. Answers j h (any_of (wrong c s j) keys) u)
          (ap (λ b. any_of (has c s j) keys || b) (l.1 j)
            ∙ or_regroup (member_of j (iter x)) (any_of (has c s j) keys) (member_of j r))
          (ih (promote_loop (iter x) r) l.0))

  union_loop-Answers :
      (j : Bytes) (keys r : List Bytes)
      → AllSets c s keys
      → IsDistinct r
      → Answers j
          (any_of (has c s j) keys || member_of j r)
          (any_of (wrong c s j) keys)
          (union_loop c s keys r)
  unfolding union_loop
  union_loop-Answers j [] r w d = (d, refl)
  union_loop-Answers j (k ∷ keys) r w d =
      union_step j k keys r (operand c s k)
        (said c s k j (operand c s k) (operand-IsOperand c s k) w.0) d
        (λ r'. union_loop-Answers j keys r' w.1)

  -- The loop ends early where nothing is left.
  retained :
      (j : Bytes) (w : Bool) (next : List Bytes → Result (List Bytes)) (q : List Bytes)
      (a h m : Bool)
      → IsDistinct q
      → member_of j q ≡ (a && m)
      → ((r' : List Bytes) → IsDistinct r' → Answers j (h && member_of j r') w (next r'))
      → Answers j ((a && h) && m) w (elim q [ [] ↦ ok [] | x ∷ left ↦ next (x ∷ left) ])
  unfolding member_of
  retained j w next [] a h m d e ih = (tt, and_none a h m e)
  retained j w next (x ∷ left) a h m d e ih =
      subst (λ b. Answers j b w (next (x ∷ left))) (ap (λ b. h && b) e ∙ and_regroup a h m)
        (ih (x ∷ left) d)

  inter_step :
      (j k : Bytes) (keys r : List Bytes) (o : Operand)
      → Says c s o k j
      → IsDistinct r
      → ((r' : List Bytes)
          → IsDistinct r'
          → Answers j
              (all_of (has c s j) keys && member_of j r')
              (any_of (wrong c s j) keys)
              (inter_loop c s keys r'))
      → Answers j
          (all_of (has c s j) (k ∷ keys) && member_of j r)
          (any_of (wrong c s j) (k ∷ keys))
          (elim o [
            | absent ↦ ok []
            | no_set ↦ err wrong_type
            | members x ↦ elim (retain (contains x) r) [
              | [] ↦ ok []
              | m ∷ left ↦ inter_loop c s keys (m ∷ left)
            ]
          ])
  unfolding member_of
  inter_step j k keys r absent p d ih = rw p (tt, refl)
  inter_step j k keys r no_set p d ih = rw p (refl, refl)
  inter_step j k keys r (members x) p d ih = rw (p.1) (
      retained j (any_of (wrong c s j) keys) (inter_loop c s keys) (retain (contains x) r)
        (member_of j (iter x)) (all_of (has c s j) keys) (member_of j r)
        (retain-IsDistinct (contains x) r d)
        (retain_lem (contains x) j r ∙ ap (λ b. b && member_of j r) (contains-iter x j p.0)) ih)

  inter_loop-Answers :
      (j : Bytes) (keys r : List Bytes)
      → AllSets c s keys
      → IsDistinct r
      → Answers j
          (all_of (has c s j) keys && member_of j r)
          (any_of (wrong c s j) keys)
          (inter_loop c s keys r)
  unfolding inter_loop
  inter_loop-Answers j [] r w d = (d, refl)
  inter_loop-Answers j (k ∷ keys) r w d =
      inter_step j k keys r (operand c s k)
        (said c s k j (operand c s k) (operand-IsOperand c s k) w.0) d
        (λ r'. inter_loop-Answers j keys r' w.1)

  diff_step :
      (j k : Bytes) (keys r : List Bytes) (o : Operand)
      → Says c s o k j
      → IsDistinct r
      → ((r' : List Bytes)
          → IsDistinct r'
          → Answers j
              (not (any_of (has c s j) keys) && member_of j r')
              (any_of (wrong c s j) keys)
              (diff_loop c s keys r'))
      → Answers j
          (not (any_of (has c s j) (k ∷ keys)) && member_of j r)
          (any_of (wrong c s j) (k ∷ keys))
          (elim o [
            | absent ↦ diff_loop c s keys r
            | no_set ↦ err wrong_type
            | members x ↦ diff_loop c s keys (retain (λ m. not (contains x m)) r)
          ])
  diff_step j k keys r absent p d ih = rw p (ih r d)
  diff_step j k keys r no_set p d ih = rw p (refl, refl)
  diff_step j k keys r (members x) p d ih =
      let q = λ (m : Bytes). not (contains x m) in
      let u = diff_loop c s keys (retain q r) in
      rw (p.1) (
        subst (λ h. Answers j h (any_of (wrong c s j) keys) u)
          (ap (λ b. not (any_of (has c s j) keys) && b)
              (retain_lem q j r ∙ ap (λ b. not b && member_of j r) (contains-iter x j p.0))
            ∙ not_or (member_of j (iter x)) (any_of (has c s j) keys) (member_of j r))
          (ih (retain q r) (retain-IsDistinct q r d)))

  diff_loop-Answers :
      (j : Bytes) (keys r : List Bytes)
      → AllSets c s keys
      → IsDistinct r
      → Answers j
          (not (any_of (has c s j) keys) && member_of j r)
          (any_of (wrong c s j) keys)
          (diff_loop c s keys r)
  unfolding diff_loop
  diff_loop-Answers j [] r w d = (d, refl)
  diff_loop-Answers j (k ∷ keys) r w d =
      diff_step j k keys r (operand c s k)
        (said c s k j (operand c s k) (operand-IsOperand c s k) w.0) d
        (λ r'. diff_loop-Answers j keys r' w.1)

  first_inter :
      (j k : Bytes) (keys : List Bytes) (o : Operand)
      → Says c s o k j
      → AllSets c s keys
      → Answers j (all_of (has c s j) (k ∷ keys)) (any_of (wrong c s j) (k ∷ keys)) (elim o [
        | absent ↦ ok []
        | no_set ↦ err wrong_type
        | members x ↦ inter_loop c s keys (promote_loop (iter x) [])
      ])
  unfolding member_of
  first_inter j k keys absent p w = rw p (tt, refl)
  first_inter j k keys no_set p w = rw p (refl, refl)
  first_inter j k keys (members x) p w =
      let l = promote_loop_lem (iter x) [] tt in
      let u = inter_loop c s keys (promote_loop (iter x) []) in
      rw (p.1) (
        subst (λ h. Answers j h (any_of (wrong c s j) keys) u)
          (ap (λ b. all_of (has c s j) keys && b) (l.1 j ∙ or_none (member_of j (iter x)))
            ∙ and_swap (all_of (has c s j) keys) (member_of j (iter x)))
          (inter_loop-Answers j keys (promote_loop (iter x) []) w l.0))

  first_diff :
      (j k : Bytes) (keys : List Bytes) (o : Operand)
      → Says c s o k j
      → AllSets c s keys
      → Answers j
          (has c s j k && not (any_of (has c s j) keys))
          (any_of (wrong c s j) (k ∷ keys))
          (elim o [
            | absent ↦ ok []
            | no_set ↦ err wrong_type
            | members x ↦ diff_loop c s keys (promote_loop (iter x) [])
          ])
  unfolding member_of
  first_diff j k keys absent p w = rw p (tt, refl)
  first_diff j k keys no_set p w = rw p (refl, refl)
  first_diff j k keys (members x) p w =
      let l = promote_loop_lem (iter x) [] tt in
      let u = diff_loop c s keys (promote_loop (iter x) []) in
      rw (p.1) (
        subst (λ h. Answers j h (any_of (wrong c s j) keys) u)
          (ap (λ b. not (any_of (has c s j) keys) && b) (l.1 j ∙ or_none (member_of j (iter x)))
            ∙ and_swap (not (any_of (has c s j) keys)) (member_of j (iter x)))
          (diff_loop-Answers j keys (promote_loop (iter x) []) w l.0))

  -- On keys that stand for sets in whole forms or for values of other types: SUNION answers the
  -- members of any key's set, SINTER those of every key's and SDIFF those of the first key's and of
  -- no other's, each member once; an error is only answered if some key is of another type.
  pub algebra_lem :
      (j k : Bytes) (keys : List Bytes)
      → AllSets c s (k ∷ keys)
      → Answers j
          (any_of (has c s j) (k ∷ keys))
          (any_of (wrong c s j) (k ∷ keys))
          (sunion c s (k ∷ keys))
        × Answers j
            (all_of (has c s j) (k ∷ keys))
            (any_of (wrong c s j) (k ∷ keys))
            (sinter c s (k ∷ keys))
        × Answers j
            (has c s j k && not (any_of (has c s j) keys))
            (any_of (wrong c s j) (k ∷ keys))
            (sdiff c s (k ∷ keys))
  unfolding sunion sinter sdiff member_of
  algebra_lem j k keys w =
      let o = said c s k j (operand c s k) (operand-IsOperand c s k) w.0 in
      (
        subst (λ h. Answers j h (any_of (wrong c s j) (k ∷ keys)) (union_loop c s (k ∷ keys) []))
            (or_none (any_of (has c s j) (k ∷ keys))) (union_loop-Answers j (k ∷ keys) [] w tt),
        first_inter j k keys (operand c s k) o w.1,
        first_diff j k keys (operand c s k) o w.1,
      )
