-- ===== src/Value/SortedSet/Order.antt =====
-- The order of the entries is transitive and, without NaN, total.
use flash_db.Base.{
  ◌≡◌, refl, sym, ◌∙◌, ◌⊎◌, inl, inr, Bool, true, false, not, ◌&&◌, ◌||◌, [], ◌∷◌, Bytes, ◌=ₛ◌,
  Bool-cases, arith,
}
use flash_db.Base.Int.{ℤ, ltb_ℤ, eqb_ℤ}
use flash_db.Value.Float.{F64, is_nan, key, lt, eq}
use flash_db.Value.SortedSet.{ltb_str, precedes}

both : (x y k : Bool) → (not x && (not y && k)) ≡ true → (x ≡ false) × (y ≡ false) × (k ≡ true)
both true y k h = ground arith
both false true k h = ground arith
both false false k h = (refl, refl, h)

pub either : (a b : Bool) → (a || b) ≡ true → (a ≡ true) ⊎ (b ≡ true)
either true b h = inl refl
either false b h = inr h

pub and_parts : (a b : Bool) → (a && b) ≡ true → (a ≡ true) × (b ≡ true)
and_parts true b h = (refl, h)
and_parts false b h = ground arith

keys_lt_lt : (a b c : ℤ) → ltb_ℤ a b ≡ true → ltb_ℤ b c ≡ true → ltb_ℤ a c ≡ true
keys_lt_lt a b c h k = ground arith

keys_lt_eq : (a b c : ℤ) → ltb_ℤ a b ≡ true → eqb_ℤ b c ≡ true → ltb_ℤ a c ≡ true
keys_lt_eq a b c h k = ground arith

keys_eq_lt : (a b c : ℤ) → eqb_ℤ a b ≡ true → ltb_ℤ b c ≡ true → ltb_ℤ a c ≡ true
keys_eq_lt a b c h k = ground arith

keys_eq_eq : (a b c : ℤ) → eqb_ℤ a b ≡ true → eqb_ℤ b c ≡ true → eqb_ℤ a c ≡ true
keys_eq_eq a b c h k = ground arith

keys_eq_sym : (a b : ℤ) → eqb_ℤ a b ≡ eqb_ℤ b a
keys_eq_sym a b = ground arith

keys_total : (a b : ℤ) → ltb_ℤ a b ≡ false → eqb_ℤ a b ≡ false → ltb_ℤ b a ≡ true
keys_total a b h k = ground arith

pub lt-lt : (a b c : F64) → lt a b ≡ true → lt b c ≡ true → lt a c ≡ true
unfolding lt
lt-lt a b c h k =
    let x = both (is_nan a) (is_nan b) (ltb_ℤ (key a) (key b)) h in
    let y = both (is_nan b) (is_nan c) (ltb_ℤ (key b) (key c)) k in
    rw (x.0, y.1) (keys_lt_lt (key a) (key b) (key c) x.2 y.2)

pub lt-eq : (a b c : F64) → lt a b ≡ true → eq b c ≡ true → lt a c ≡ true
unfolding lt eq
lt-eq a b c h k =
    let x = both (is_nan a) (is_nan b) (ltb_ℤ (key a) (key b)) h in
    let y = both (is_nan b) (is_nan c) (eqb_ℤ (key b) (key c)) k in
    rw (x.0, y.1) (keys_lt_eq (key a) (key b) (key c) x.2 y.2)

pub eq-lt : (a b c : F64) → eq a b ≡ true → lt b c ≡ true → lt a c ≡ true
unfolding lt eq
eq-lt a b c h k =
    let x = both (is_nan a) (is_nan b) (eqb_ℤ (key a) (key b)) h in
    let y = both (is_nan b) (is_nan c) (ltb_ℤ (key b) (key c)) k in
    rw (x.0, y.1) (keys_eq_lt (key a) (key b) (key c) x.2 y.2)

pub eq-eq : (a b c : F64) → eq a b ≡ true → eq b c ≡ true → eq a c ≡ true
unfolding eq
eq-eq a b c h k =
    let x = both (is_nan a) (is_nan b) (eqb_ℤ (key a) (key b)) h in
    let y = both (is_nan b) (is_nan c) (eqb_ℤ (key b) (key c)) k in
    rw (x.0, y.1) (keys_eq_eq (key a) (key b) (key c) x.2 y.2)

pub lt_total :
    (a b : F64)
    → is_nan a ≡ false
    → is_nan b ≡ false
    → (lt a b ≡ true) ⊎ ((eq a b ≡ true) × (eq b a ≡ true)) ⊎ (lt b a ≡ true)
unfolding lt eq
lt_total a b n m = elim (Bool-cases (ltb_ℤ (key a) (key b))) [
  | inl h ↦ inl (rw (n, m) h)
  | inr h ↦ elim (Bool-cases (eqb_ℤ (key a) (key b))) [
    | inl k ↦ inr (inl (rw (n, m) k, rw (n, m) (sym (keys_eq_sym (key a) (key b)) ∙ k)))
    | inr k ↦ inr (inr (rw (n, m) (keys_total (key a) (key b) h k)))
  ]
]

pub ltb_str_trans : (s t u : Bytes) → ltb_str s t ≡ true → ltb_str t u ≡ true → ltb_str s u ≡ true
unfolding ltb_str
ltb_str_trans [] [] u h k = ground arith
ltb_str_trans [] (b ∷ t) [] h k = ground arith
ltb_str_trans [] (b ∷ t) (c ∷ u) h k = refl
ltb_str_trans (a ∷ s) [] u h k = ground arith
ltb_str_trans (a ∷ s) (b ∷ t) [] h k = ground arith
ltb_str_trans (a ∷ s) (b ∷ t) (c ∷ u) h k = ground (arith, ltb_str_trans s t u)

pub ltb_str_total : (s t : Bytes) → ltb_str s t ≡ false → (s =ₛ t) ≡ false → ltb_str t s ≡ true
unfolding ltb_str ◌=ₛ◌
ltb_str_total [] [] h k = ground arith
ltb_str_total [] (b ∷ t) h k = ground arith
ltb_str_total (a ∷ s) [] h k = refl
ltb_str_total (a ∷ s) (b ∷ t) h k = ground (arith, ltb_str_total s t)

last : (a : Bool) {b c : Bool} → b ≡ true → c ≡ true → (a || (b && c)) ≡ true
last true h k = refl
last false h k = rw (h, k) refl

refuses : {a b c : Bool} → (a || (b && c)) ≡ false → (a ≡ true) ⊎ (b ≡ true) → c ≡ false
refuses {a = true} h p = ground arith
refuses {a = false} {b = true} h p = h
refuses {a = false} {b = false} h (inl p) = ground arith
refuses {a = false} {b = false} h (inr p) = ground arith

pub precedes_trans :
    (s t u : F64) (i j k : Bytes)
    → precedes s i t j ≡ true
    → precedes t j u k ≡ true
    → precedes s i u k ≡ true
unfolding precedes
precedes_trans s t u i j k h l = elim (either (lt s t) (eq s t && ltb_str i j) h) [
  | inl a ↦ elim (either (lt t u) (eq t u && ltb_str j k) l) [
    | inl b ↦ rw (lt-lt s t u a b) refl
    | inr b ↦ rw (lt-eq s t u a (and_parts (eq t u) (ltb_str j k) b).0) refl
  ]
  | inr a ↦
      let x = and_parts (eq s t) (ltb_str i j) a in
      elim (either (lt t u) (eq t u && ltb_str j k) l) [
        | inl b ↦ rw (eq-lt s t u x.0 b) refl
        | inr b ↦
            let y = and_parts (eq t u) (ltb_str j k) b in
            last (lt s u) (eq-eq s t u x.0 y.0) (ltb_str_trans i j k x.1 y.1)
      ]
]

pub precedes_total :
    (s t : F64) (i j : Bytes)
    → is_nan s ≡ false
    → is_nan t ≡ false
    → (i =ₛ j) ≡ false
    → precedes s i t j ≡ false
    → precedes t j s i ≡ true
unfolding precedes
precedes_total s t i j n m d h = elim (lt_total s t n m) [
  | inl a ↦ absurd (clash (lt s t) (eq s t && ltb_str i j) a h)
  | inr (inl a) ↦ last (lt t s) a.1 (ltb_str_total i j (refuses {a = lt s t} h (inr a.0)) d)
  | inr (inr a) ↦ rw a refl
]
  where
    clash : (a b : Bool) → a ≡ true → (a || b) ≡ false → ⊥
    clash true b p q = ground arith
    clash false b p q = ground arith
