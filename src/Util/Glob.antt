-- ===== src/Util/Glob.antt =====
-- What it means for a text to match a pattern of `?`, `*` and plain bytes, with no search in it.
use flash_db.Base.{ℕ, ◌≡◌, ◌≢◌, ◌⊎◌, inl, inr, List, [], ◌∷◌, Bytes, ◌==◌, if◌then◌else◌, refl}

pub data Item : Type 0 where
  star any_byte : Item
  lit : ℕ → Item

abbrev pub item_of : ℕ → Item
item_of b = if b == b'*' then star else if b == b'?' then any_byte else lit b

abbrev pub items : Bytes → List Item
items [] = []
items (b ∷ p) = item_of b ∷ items p

abbrev pub Accepts : Item → ℕ → Type 0
Accepts star c = ⊥
Accepts any_byte c = Unit
Accepts (lit b) c = b ≡ c

pub data Matches : List Item → Bytes → Type 0 where
  nil : Matches [] []
  one :
      {i : Item} {c : ℕ} {p : List Item} {s : Bytes}
      → Accepts i c
      → Matches p s
      → Matches (i ∷ p) (c ∷ s)
  skip : {p : List Item} {s : Bytes} → Matches p s → Matches (star ∷ p) s
  take : {c : ℕ} {p : List Item} {s : Bytes} → Matches (star ∷ p) s → Matches (star ∷ p) (c ∷ s)

-- No byte of the text is `b`.
abbrev pub Lacks : ℕ → Bytes → Type 0
Lacks b [] = Unit
Lacks b (c ∷ s) = (c ≢ b) × Lacks b s

pub one_inv :
    {i : Item} {c : ℕ} {p : List Item} {s : Bytes}
    → i ≢ star
    → Matches (i ∷ p) (c ∷ s)
    → Accepts i c × Matches p s
one_inv h (one a d) = (a, d)
one_inv h (skip d) = absurd (h refl)
one_inv h (take d) = absurd (h refl)

pub nil_inv : {i : Item} {p : List Item} → Matches (i ∷ p) [] → i ≡ star
nil_inv (skip d) = refl

pub star_inv :
    {p : List Item} {c : ℕ} {s : Bytes}
    → Matches (star ∷ p) (c ∷ s)
    → Matches p (c ∷ s) ⊎ Matches (star ∷ p) s
star_inv (one a d) = absurd a
star_inv (skip d) = inl d
star_inv (take d) = inr d

pub star_nil : {p : List Item} → Matches (star ∷ p) [] → Matches p []
star_nil (skip d) = d

pub two_stars : {p : List Item} {s : Bytes} → Matches (star ∷ star ∷ p) s → Matches (star ∷ p) s
two_stars (one a d) = absurd a
two_stars (skip d) = d
two_stars (take d) = take (two_stars d)

-- A star in front makes the next item optional.
pub drop_item :
    {i : Item} {p : List Item} {s : Bytes} → Matches (star ∷ i ∷ p) s → Matches (star ∷ p) s
drop_item (one a d) = absurd a
drop_item (skip (one a d)) = take (skip d)
drop_item (skip (skip d)) = skip d
drop_item (skip (take d)) = take d
drop_item (take d) = take (drop_item d)

pub drop_both :
    {i : Item} {p : List Item} {c : ℕ} {s : Bytes}
    → i ≢ star
    → Matches (star ∷ i ∷ p) (c ∷ s)
    → Matches (star ∷ p) s
drop_both h (one a d) = absurd a
drop_both h (skip d) = skip (one_inv h d).1
drop_both h (take d) = drop_item d
