-- ===== src/Pubsub/Registry/Patterns.antt =====
-- The index of patterns: the buckets that `publish` does not look at hold no pattern that matches.
use mathlib.Core.Path.{subst}
use flash_db.Base.{
  ℕ, ◌≡◌, ◌≢◌, refl, sym, ap, ◌∙◌, inl, inr, true, ◌&&◌, Option, none, some, List, [], ◌∷◌, ◌++◌,
  Bytes, ◌==◌, ==_iff, ◌=ₛ◌, Bool-cases, arith,
}
use flash_db.Util.{glob_match_bytes}
use flash_db.Util.Glob.{items, item_of, Item, star, lit, Matches, one_inv, nil_inv}
use flash_db.Util.Correct.{glob_match_bytes_sound}
use flash_db.Pubsub.Registry.{
  PatternEntry, PatternIndex, new_index, first, bucket_of, filed, refile, add, retained, remove,
  check_all,
}

-- Every entry of the list is one that is filed under `o`.
abbrev pub Filed : Option ℕ → List PatternEntry → Type 0
Filed o [] = Unit
Filed o (e ∷ es) = (bucket_of (first e.pattern_) ≡ o) × Filed o es

abbrev pub IsFiled : PatternIndex → Type 0
IsFiled idx = (o : Option ℕ) → Filed o (filed idx o)

Filed-append :
    (o : Option ℕ) (es : List PatternEntry) (e : PatternEntry)
    → Filed o es
    → bucket_of (first e.pattern_) ≡ o
    → Filed o (es ++ e ∷ [])
Filed-append o [] e f h = (h, tt)
Filed-append o (x ∷ es) e f h = (f.0, Filed-append o es e f.1 h)

Filed-retained :
    (o : Option ℕ) (pattern_ : Bytes) (slot : ℕ) (es : List PatternEntry)
    → Filed o es
    → Filed o (retained pattern_ slot es)
unfolding retained
Filed-retained o pattern_ slot [] f = f
Filed-retained o pattern_ slot (e ∷ es) f =
    let rest = Filed-retained o pattern_ slot es f.1 in
    elim (Bool-cases ((e.pattern_ =ₛ pattern_) && (e.slot == slot))) [
      | inl x ↦ rw x rest
      | inr x ↦ rw x (f.0, rest)
    ]

refile-Filed :
    (idx : PatternIndex) (place o : Option ℕ) (es : List PatternEntry) (total : ℕ)
    → IsFiled idx
    → Filed place es
    → Filed o (filed (record (refile idx place es) { total = total }) o)
unfolding filed refile
refile-Filed idx none none es total f h = h
refile-Filed idx none (some b) es total f h = f (some b)
refile-Filed idx (some a) none es total f h = f none
refile-Filed idx (some a) (some b) es total f h = elim (Bool-cases (b == a)) [
  | inl e ↦ rw (e, (==_iff b a).0 e) h
  | inr e ↦ rw e (f (some b))
]

no_bucket : (b : ℕ) → bucket_of none ≡ some b → ⊥
unfolding bucket_of
no_bucket b h = cc

plain_item : (a b : ℕ) → bucket_of (some a) ≡ some b → (item_of a ≡ lit a) × (a ≡ b)
unfolding bucket_of
plain_item a b h = (ground arith, ground arith)

lit_ne_star : (a : ℕ) → lit a ≢ star
lit_ne_star a h = cc

lit_first :
    (a : ℕ) (p : List Item) (channel : Bytes) → Matches (lit a ∷ p) channel → first channel ≡ some a
lit_first a p [] d = absurd (lit_ne_star a (nil_inv d))
lit_first a p (c ∷ s) d = ap some (sym ((one_inv (lit_ne_star a) d).0))

-- A pattern that begins with a plain byte matches only channels that begin with it.
plain_first :
    (p channel : Bytes) (b : ℕ)
    → bucket_of (first p) ≡ some b
    → glob_match_bytes p channel ≡ true
    → first channel ≡ some b
plain_first [] channel b h g = absurd (no_bucket b h)
plain_first (a ∷ p) channel b h g =
    let (i, e) = plain_item a b h in
    let d =
      subst (λ t. Matches (t ∷ items p) channel) i (glob_match_bytes_sound (a ∷ p) channel g) in
    lit_first a (items p) channel d ∙ ap some e

check_all_none :
    (b : ℕ) (es : List PatternEntry) (channel message : Bytes)
    → Filed (some b) es
    → first channel ≢ some b
    → check_all es channel message ≡ (0, [])
unfolding check_all
check_all_none b [] channel message f n = refl
check_all_none b (e ∷ es) channel message f n =
    elim (Bool-cases (glob_match_bytes e.pattern_ channel)) [
      | inl g ↦ absurd (n (plain_first e.pattern_ channel b f.0 g))
      | inr g ↦ rw (g, check_all_none b es channel message f.1 n) refl
    ]

-- If every pattern is filed under its first byte, a bucket of a byte that the channel does not
-- begin with, which `publish` does not look at, holds no pattern that matches the channel.
pub unlooked_buckets :
    (idx : PatternIndex) (b : ℕ) (channel message : Bytes)
    → IsFiled idx
    → first channel ≢ some b
    → check_all (idx.buckets b) channel message ≡ (0, [])
unfolding filed
unlooked_buckets idx b channel message f n =
    check_all_none b (idx.buckets b) channel message (f (some b)) n

add-IsFiled :
    (idx : PatternIndex) (pattern_ : Bytes) (slot : ℕ)
    → IsFiled idx
    → IsFiled (add idx pattern_ slot)
unfolding add
add-IsFiled idx pattern_ slot f o =
    let place = bucket_of (first pattern_) in
    refile-Filed idx place o _ _ f (Filed-append place (filed idx place) _ (f place) refl)

remove-IsFiled :
    (idx : PatternIndex) (pattern_ : Bytes) (slot : ℕ)
    → IsFiled idx
    → IsFiled (remove idx pattern_ slot)
unfolding remove
remove-IsFiled idx pattern_ slot f o =
    let place = bucket_of (first pattern_) in
    refile-Filed idx place o _ _ f (Filed-retained place pattern_ slot (filed idx place) (f place))

-- `add` and `remove` of the pattern index keep every pattern filed under its first byte, or among
-- the wildcards if it begins with `*`, `?` or `[` or is empty.
pub index-IsFiled :
    (idx : PatternIndex) (pattern_ : Bytes) (slot : ℕ)
    → IsFiled idx
    → IsFiled (add idx pattern_ slot) × IsFiled (remove idx pattern_ slot)
index-IsFiled idx pattern_ slot f =
    (add-IsFiled idx pattern_ slot f, remove-IsFiled idx pattern_ slot f)

pub new_index-IsFiled : IsFiled new_index
unfolding new_index filed
new_index-IsFiled none = tt
new_index-IsFiled (some b) = tt
