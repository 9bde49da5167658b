-- ===== src/Value/Collections/Set/Members.antt =====
-- Membership in lists of strings, and in the list of the texts of ascending integers.
use flash_db.Base.{
  ◌≡◌, refl, sym, ap, ◌∙◌, inl, inr, Bool, true, false, not, ◌||◌, ◌&&◌, Option, none, some, List,
  [], ◌∷◌, ◌++◌, Bytes, ◌=ₛ◌, eq_iff, eq_refl, flip_false, if◌then◌else◌, Bool-cases, arith,
}
use flash_db.Base.Int.{ℤ}
use flash_db.Resp.Number.Parse.{parse_i64, in_i64}
use flash_db.Resp.Number.Parse.RoundTrip.{parse_i64-signed, parse_i64-in_i64}
use flash_db.Resp.Replies.{signed}
use flash_db.Value.Collections.Set.{canonical_i64, member_of}

-- No string twice.
abbrev pub IsDistinct : List Bytes → Type 0
IsDistinct [] = Unit
IsDistinct (x ∷ v) = (member_of x v ≡ false) × IsDistinct v

pub canonical_i64-signed : (n : ℤ) → in_i64 n ≡ true → canonical_i64 (signed n) ≡ some n
unfolding canonical_i64
canonical_i64-signed n h = rw (canonical_i64, parse_i64-signed n h, eq_refl (signed n)) refl

canonical_at :
    (s : Bytes) (n : ℤ) (o : Option ℤ)
    → parse_i64 s ≡ o
    → (elim o as (λ o. Option ℤ) [ none ↦ none | some n ↦ if signed n =ₛ s then some n else none ])
      ≡ some n
    → (signed n ≡ s) × (in_i64 n ≡ true)
canonical_at s n none e h = cc
canonical_at s n (some k) e h =
    let w = parse_i64-in_i64 s k e in
    let g = eq_iff (signed k) s in (ground (arith, g), ground arith)

pub canonical_i64_sound :
    (s : Bytes) (n : ℤ) → canonical_i64 s ≡ some n → (signed n ≡ s) × (in_i64 n ≡ true)
unfolding canonical_i64
canonical_i64_sound s n h = canonical_at s n (parse_i64 s) refl h

pub member_of-append :
    (m : Bytes) (v w : List Bytes) → member_of m (v ++ w) ≡ (member_of m v || member_of m w)
unfolding member_of
member_of-append m [] w = refl
member_of-append m (x ∷ v) w = ground (arith, member_of-append m v w)

pub IsDistinct-append :
    (m : Bytes) (v : List Bytes) → IsDistinct v → member_of m v ≡ false → IsDistinct (v ++ m ∷ [])
unfolding member_of
IsDistinct-append m [] d h = (refl, tt)
IsDistinct-append m (x ∷ v) d h =
    let f = flip_false x m in
    (ground (arith, member_of-append x v (m ∷ []), f), IsDistinct-append m v d.1 (ground arith))

-- A string that equals `m` is a member exactly where `m` is.
pub member_of-eq : (x m : Bytes) (v : List Bytes) → (x =ₛ m) ≡ true → member_of x v ≡ member_of m v
member_of-eq x m v e = ap (λ t. member_of t v) ((eq_iff x m).0 e)

pub or_swap : (a b m : Bool) → (b || (a || m)) ≡ (a || (b || m))
or_swap true true m = refl
or_swap true false m = refl
or_swap false true m = refl
or_swap false false m = refl

pub except_or :
    (a b m : Bool) → (a ≡ true → b ≡ true → ⊥) → (b || (not a && m)) ≡ (not a && (b || m))
except_or true true m h = absurd (h refl refl)
except_or true false m h = refl
except_or false true m h = refl
except_or false false m h = refl

pub member_of-or :
    (m j : Bytes) (v : List Bytes)
    → member_of m v ≡ true
    → member_of j v ≡ ((m =ₛ j) || member_of j v)
member_of-or m j v e = elim (Bool-cases (m =ₛ j)) [
  | inl k ↦ rw k (sym (member_of-eq m j v k) ∙ e)
  | inr k ↦ rw k refl
]
