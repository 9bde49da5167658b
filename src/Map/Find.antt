-- ===== src/Map/Find.antt =====
-- `find` after each kind of write to the entries, and the number of occupied entries.
use flash_db.Base.{
  ℕ, ◌+◌, ◌≡◌, refl, ◌⊎◌, inl, inr, Option, none, some, List, [], ◌∷◌, ◌++◌, Bytes, ◌=ₛ◌, eq_iff,
  if◌then◌else◌, arith,
}
use flash_db.Map.{Entry, find, write}

module _ {V : Type 0} where
  pub find-write :
      (k j : Bytes) (c : Option V) (es : List (Entry V)) (old : Option V)
      → find k es ≡ some old
      → find j (write k c es) ≡ (if k =ₛ j then some c else find j es)
  unfolding find write
  find-write k j c [] old h = cc
  find-write k j c ((i, d) ∷ es) old h =
      ground (arith, eq_iff i k, eq_iff i j, eq_iff k j, find-write k j c es old)

  pub find-append :
      (k j : Bytes) (c : Option V) (es : List (Entry V))
      → find k es ≡ none
      → find j (es ++ (k, c) ∷ []) ≡ (if k =ₛ j then some c else find j es)
  unfolding find
  find-append k j c [] h = refl
  find-append k j c ((i, d) ∷ es) h =
      ground (arith, eq_iff i k, eq_iff i j, eq_iff k j, find-append k j c es)

  abbrev pub weight : Option V → ℕ
  weight none = 0
  weight (some v) = 1

  -- The number of occupied entries.
  unfoldable pub occupancy : List (Entry V) → ℕ
  occupancy [] = 0
  occupancy ((k, c) ∷ es) = weight c + occupancy es

  pub occupancy-write :
      (k : Bytes) (c : Option V) (es : List (Entry V)) (old : Option V)
      → find k es ≡ some old
      → occupancy (write k c es) + weight old ≡ occupancy es + weight c
  unfolding find write occupancy
  occupancy-write k c [] old h = cc
  occupancy-write k c ((i, d) ∷ es) old h = ground (arith, occupancy-write k c es old)

  pub occupancy-append :
      (k : Bytes) (c : Option V) (es : List (Entry V))
      → occupancy (es ++ (k, c) ∷ []) ≡ occupancy es + weight c
  unfolding occupancy
  occupancy-append k c [] = omega arith
  occupancy-append k c ((i, d) ∷ es) = omega (arith, occupancy-append k c es)

  -- A key has no entry, a free one, or an occupied one.
  pub find-cases :
      (k : Bytes) (es : List (Entry V))
      → (find k es ≡ none) ⊎ (find k es ≡ some none) ⊎ ((v : V) × (find k es ≡ some (some v)))
  find-cases k es = go (find k es) refl
    where
      go :
          (o : Option (Option V))
          → find k es ≡ o
          → (find k es ≡ none) ⊎ (find k es ≡ some none) ⊎ ((v : V) × (find k es ≡ some (some v)))
      go none e = inl e
      go (some none) e = inr (inl e)
      go (some (some v)) e = inr (inr (v, e))
