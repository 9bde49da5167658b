-- ===== src/Value/SortedSet/Bloom.antt =====
-- The Bloom filter has no false negative: it holds both bits of every member that was put in.
use flash_db.Base.{
  ℕ, zero, suc, ◌*◌, ◌%◌, ◌<◌, ◌≡◌, refl, sym, ap, ◌∙◌, inl, inr, Bool, true, false, ◌&&◌, List, [],
  ◌∷◌, Bytes, length, length-replicate, replicate, ltb, ◌=ₛ◌, eq_iff, Bool-cases, arith,
}
use flash_db.Value.SortedSet.{
  ZEntry, ZSetData, member_hash, rotate_left, test_bit, set_bit, bloom_words, bloom_maybe_contains,
  bloom_set, rebuild_loop, bloom_rebuild, bloom_grow_if_needed, remove_at, listed,
}
use flash_db.Value.SortedSet.Order.{and_parts}
use flash_db.Value.SortedSet.Places.{before, place}

pub length-set_bit : (i : ℕ) (w : List Bool) → length (set_bit i w) ≡ length w
unfolding set_bit
length-set_bit i [] = refl
length-set_bit zero (b ∷ w) = refl
length-set_bit (suc i) (b ∷ w) = ap suc (length-set_bit i w)

test_bit-set_bit : (i : ℕ) (w : List Bool) → i < length w → test_bit i (set_bit i w) ≡ true
unfolding test_bit set_bit
test_bit-set_bit i [] h = absurd (omega (arith, h))
test_bit-set_bit zero (b ∷ w) h = refl
test_bit-set_bit (suc i) (b ∷ w) h = test_bit-set_bit i w (omega (arith, h))

test_bit-kept : (j i : ℕ) (w : List Bool) → test_bit j w ≡ true → test_bit j (set_bit i w) ≡ true
unfolding test_bit set_bit
test_bit-kept j i [] h = h
test_bit-kept zero zero (b ∷ w) h = refl
test_bit-kept zero (suc i) (b ∷ w) h = h
test_bit-kept (suc j) zero (b ∷ w) h = h
test_bit-kept (suc j) (suc i) (b ∷ w) h = test_bit-kept j i w h

pub length-bloom_set : (w : List Bool) (h : ℕ) → length (bloom_set w h) ≡ length w
unfolding bloom_set
length-bloom_set w h =
    length-set_bit (rotate_left h 31 % length w) (set_bit (h % length w) w)
    ∙ length-set_bit (h % length w) w

both_true : {a b : Bool} → a ≡ true → b ≡ true → (a && b) ≡ true
both_true h k = rw (h, k) refl

pub bloom_set-finds :
    (w : List Bool) (h : ℕ) → 0 < length w → bloom_maybe_contains (bloom_set w h) h ≡ true
unfolding bloom_maybe_contains bloom_set
bloom_set-finds w h n =
    let a = h % length w in
    let b = rotate_left h 31 % length w in
    let u = set_bit a w in
    let e = length-bloom_set w h in
    rw e (
      both_true (test_bit-kept a b u (test_bit-set_bit a w (omega (arith, n))))
        (test_bit-set_bit b u (omega (arith, n, length-set_bit a w))))

pub bloom_set-keeps :
    (w : List Bool) (h k : ℕ)
    → bloom_maybe_contains w k ≡ true
    → bloom_maybe_contains (bloom_set w h) k ≡ true
unfolding bloom_maybe_contains bloom_set
bloom_set-keeps w h k f =
    let p = and_parts (test_bit (k % length w) w) (test_bit (rotate_left k 31 % length w) w) f in
    let kept : (j : ℕ) → test_bit j w ≡ true → test_bit j (bloom_set w h) ≡ true = λ j t.
      test_bit-kept j (rotate_left h 31 % length w) (set_bit (h % length w) w)
        (test_bit-kept j (h % length w) w t) in
    rw (length-bloom_set w h)
      (both_true (kept (k % length w) p.0) (kept (rotate_left k 31 % length w) p.1))

-- The filter has a bit at least, and finds every member of the vector.
abbrev pub Covers : List Bool → List ZEntry → Type 0
Covers w [] = Unit
Covers w (e ∷ v) = (bloom_maybe_contains w (member_hash e.member) ≡ true) × Covers w v

pub Covers-listed :
    (w : List Bool) (v : List ZEntry) (m : Bytes)
    → Covers w v
    → listed m v ≡ true
    → bloom_maybe_contains w (member_hash m) ≡ true
unfolding listed
Covers-listed w [] m c h = ground arith
Covers-listed w (e ∷ v) m c h = elim (Bool-cases (e.member =ₛ m)) [
  | inl k ↦ ap (λ t. bloom_maybe_contains w (member_hash t)) (sym ((eq_iff e.member m).0 k)) ∙ c.0
  | inr k ↦ Covers-listed w v m c.1 (rw k at h)
]

pub Covers-place :
    (w : List Bool) (x : ZEntry) (v : List ZEntry)
    → bloom_maybe_contains w (member_hash x.member) ≡ true
    → Covers w v
    → Covers w (place x v)
Covers-place w x [] h c = (h, tt)
Covers-place w x (e ∷ v) h c = elim (Bool-cases (before e x)) [
  | inl k ↦ rw k (c.0, Covers-place w x v h c.1)
  | inr k ↦ rw k (h, c)
]

pub Covers-remove_at :
    (w : List Bool) (i : ℕ) (v : List ZEntry) → Covers w v → Covers w (remove_at i v)
Covers-remove_at w zero [] c = tt
Covers-remove_at w (suc i) [] c = tt
Covers-remove_at w zero (e ∷ v) c = c.1
Covers-remove_at w (suc i) (e ∷ v) c = (c.0, Covers-remove_at w i v c.1)

pub Covers-bloom_set :
    (w : List Bool) (h : ℕ) (v : List ZEntry) → Covers w v → Covers (bloom_set w h) v
Covers-bloom_set w h [] c = tt
Covers-bloom_set w h (e ∷ v) c =
    (bloom_set-keeps w h (member_hash e.member) c.0, Covers-bloom_set w h v c.1)

rebuild_loop_lem :
    (v u : List ZEntry) (w : List Bool)
    → 0 < length w
    → Covers w u
    → let done = rebuild_loop v w in (0 < length done) × Covers done u × Covers done v
unfolding rebuild_loop
rebuild_loop_lem [] u w n c = (n, c, tt)
rebuild_loop_lem (e ∷ v) u w n c =
    let h = member_hash e.member in
    let l =
      rebuild_loop_lem v (e ∷ u) (bloom_set w h) (omega (arith, n, length-bloom_set w h))
        (bloom_set-finds w h n, Covers-bloom_set w h u c) in
    (l.0, l.1.1, (l.1.0, l.2))

pub bloom_rebuild_lem :
    (v : List ZEntry) → (0 < length (bloom_rebuild v)) × Covers (bloom_rebuild v) v
unfolding bloom_rebuild bloom_words
bloom_rebuild_lem v =
    let n = bloom_words (length v) * 64 in
    let l =
      rebuild_loop_lem v [] (replicate n false) (omega (arith, length-replicate n false)) tt in
    (l.0, l.2)

pub bloom_grow_if_needed_lem :
    (z : ZSetData)
    → 0 < length z.bloom
    → Covers z.bloom z.entries
    → let grown = bloom_grow_if_needed z in
      (grown.entries ≡ z.entries) × (0 < length grown.bloom) × Covers grown.bloom z.entries
unfolding bloom_grow_if_needed
bloom_grow_if_needed_lem z n c = elim (Bool-cases (ltb (length z.bloom) (length z.entries * 8))) [
  | inl h ↦ rw h (let l = bloom_rebuild_lem z.entries in (refl, l.0, l.1))
  | inr h ↦ rw h (refl, n, c)
]
