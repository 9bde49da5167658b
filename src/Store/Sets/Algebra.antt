-- ===== src/Store/Sets/Algebra.antt =====
-- SUNION, SINTER and SDIFF in terms of what SISMEMBER answers for each key.
pub mod Loops
use mathlib.Core.Path.{subst}
use flash_db.Base.{
  ℕ, ◌≡◌, refl, sym, ap, ◌∙◌, inl, inr, Bool, true, false, not, ◌||◌, ◌&&◌, Option, none, some,
  List, [], ◌∷◌, Bytes, ◌=ₛ◌, eq_iff, if◌then◌else◌, Bool-cases, arith,
}
use flash_db.Map.{get_ref}
use flash_db.Value.{FyroDb, StoreValue, Clock, is_expired, as_set}
use flash_db.Value.Collections.{SetInner}
use flash_db.Value.Collections.Set.{new, contains, iter, member_of, promote_loop}
use flash_db.Value.Collections.Set.Members.{IsDistinct}
use flash_db.Value.Collections.Set.Strings.{promote_loop_lem}
use flash_db.Value.Collections.Set.Laws.{IsSetInner, contains-iter}
use flash_db.Store.{Store, Result, ok, err, Error, wrong_type}
use flash_db.Store.Update.{map_ok}
use flash_db.Store.Update.Refine.{view, held}
use flash_db.Store.Sets.{sismember}
use flash_db.Store.Sets.Changes.{set_at, IsSetAt}
use flash_db.Store.Sets.Commands.{sismember-set_at, contains-new}
use flash_db.Store.Sets.Combine.{
  Operand, absent, no_set, members, operand, retain, union_loop, sunion, inter_loop, sinter,
  diff_loop, sdiff,
}

abbrev pub is_true : Result Bool → Bool
is_true (ok b) = b
is_true (err e) = false

abbrev pub is_err : Result Bool → Bool
is_err (ok b) = false
is_err (err e) = true

abbrev pub any_of : (Bytes → Bool) → List Bytes → Bool
any_of p [] = false
any_of p (k ∷ keys) = p k || any_of p keys

abbrev pub all_of : (Bytes → Bool) → List Bytes → Bool
all_of p [] = true
all_of p (k ∷ keys) = p k && all_of p keys

-- The answer to a command: strings with no duplicate, with `j` among them if `has` says so, or an
-- error, in which case some key is of another type.
abbrev pub Answers : Bytes → Bool → Bool → Result (List Bytes) → Type 0
Answers j has wrong (ok r) = IsDistinct r × (member_of j r ≡ has)
Answers j has wrong (err e) = (e ≡ wrong_type) × (wrong ≡ true)

pub or_regroup : (a b m : Bool) → (b || (a || m)) ≡ ((a || b) || m)
or_regroup true true m = refl
or_regroup true false m = refl
or_regroup false true m = refl
or_regroup false false m = refl

-- The Boolean laws behind the steps of the loops.
pub not_or : (a b m : Bool) → (not b && (not a && m)) ≡ (not (a || b) && m)
not_or true true m = refl
not_or true false m = refl
not_or false true m = refl
not_or false false m = refl

pub and_regroup : (a b m : Bool) → (b && (a && m)) ≡ ((a && b) && m)
and_regroup true true m = refl
and_regroup true false m = refl
and_regroup false true m = refl
and_regroup false false m = refl

pub and_none : (a b m : Bool) → false ≡ (a && m) → false ≡ ((a && b) && m)
and_none true true m h = h
and_none true false m h = refl
and_none false b m h = refl

pub or_none : (b : Bool) → (b || false) ≡ b
or_none true = refl
or_none false = refl

pub and_swap : (a b : Bool) → (a && b) ≡ (b && a)
and_swap true true = refl
and_swap true false = refl
and_swap false true = refl
and_swap false false = refl

pub and_false : (b : Bool) → false ≡ (b && false)
and_false true = refl
and_false false = refl

pub retain_lem :
    (p : Bytes → Bool) (j : Bytes) (v : List Bytes)
    → member_of j (retain p v) ≡ (p j && member_of j v)
unfolding retain member_of
retain_lem p j [] = and_false (p j)
retain_lem p j (x ∷ v) = elim (Bool-cases (x =ₛ j)) [
  | inl e ↦ rw ((eq_iff x j).0 e) (elim (Bool-cases (p j)) [
    | inl y ↦ ground (arith, retain_lem p j v, eq_iff j j)
    | inr y ↦ ground (arith, retain_lem p j v)
  ])
  | inr e ↦ ground (arith, retain_lem p j v)
]

pub retain-IsDistinct : (p : Bytes → Bool) (v : List Bytes) → IsDistinct v → IsDistinct (retain p v)
unfolding retain
retain-IsDistinct p [] d = tt
retain-IsDistinct p (x ∷ v) d = elim (Bool-cases (p x)) [
  | inl e ↦ rw e (retain_lem p x v ∙ rw (d.0) (sym (and_false (p x))), retain-IsDistinct p v d.1)
  | inr e ↦ rw e (retain-IsDistinct p v d.1)
]

-- The operand of a key is the set that it stands for, told apart from a missing key.
abbrev pub IsOperand : Operand → Result SetInner → Type 0
IsOperand absent r = r ≡ ok new
IsOperand no_set r = r ≡ err wrong_type
IsOperand (members x) r = r ≡ ok x

module _ {Z S : Type 0} (c : Clock) (s : Store Z S) where
  pub operand-IsOperand : (k : Bytes) → IsOperand (operand c s k) (set_at c s k)
  unfolding operand held view
  operand-IsOperand k = at_value (get_ref s.contents k)
    where
      read :
          (o : Option SetInner)
          → IsOperand
              (elim o [ none ↦ no_set | some x ↦ members x ])
              (elim o [ none ↦ err wrong_type | some x ↦ ok x ])
      read none = refl
      read (some x) = refl

      at_value :
          (o : Option (StoreValue Z S))
          → IsOperand
              (elim o [
                | none ↦ absent
                | some v ↦
                    if is_expired c v
                    then absent
                    else elim (as_set v.value) [ none ↦ no_set | some x ↦ members x ]
              ])
              (view as_set new c o)
      at_value none = refl
      at_value (some v) = elim (Bool-cases (is_expired c v)) [
        | inl e ↦ rw e refl
        | inr e ↦ rw e (read (as_set v.value))
      ]

  abbrev pub AllSets : List Bytes → Type 0
  AllSets [] = Unit
  AllSets (k ∷ keys) = IsSetAt (set_at c s k) × AllSets keys

  -- What the operand of a key says of a member.
  abbrev pub Says : Operand → Bytes → Bytes → Type 0
  Says absent k j = sismember c s k j ≡ ok false
  Says no_set k j = sismember c s k j ≡ err wrong_type
  Says (members x) k j = IsSetInner x × (sismember c s k j ≡ ok (member_of j (iter x)))

  pub said :
      (k j : Bytes) (o : Operand) → IsOperand o (set_at c s k) → IsSetAt (set_at c s k) → Says o k j
  unfolding map_ok
  said k j absent e w =
      sismember-set_at c s k j ∙ ap (map_ok (λ x. contains x j)) e ∙ ap ok (contains-new j)
  said k j no_set e w = sismember-set_at c s k j ∙ ap (map_ok (λ x. contains x j)) e
  said k j (members x) e w =
      let whole : IsSetInner x = subst IsSetAt e w in
      (
        whole,
        sismember-set_at c s k j
            ∙ ap (map_ok (λ x. contains x j)) e
            ∙ ap ok (contains-iter x j whole),
      )

module _ {Z S : Type 0} (c : Clock) (s : Store Z S) where
  abbrev pub has : Bytes → Bytes → Bool
  has j k = is_true (sismember c s k j)

  abbrev pub wrong : Bytes → Bytes → Bool
  wrong j k = is_err (sismember c s k j)
