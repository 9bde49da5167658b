-- ===== src/Base/Text.antt =====
-- Byte strings: the contents of `&str`, `String`, `SmallStr` and `&[u8]`, and their equality test.
use Prim.Native.Nat.{ℕ}
use Prim.Native.Char.{code}
use Prim.Native.String.{String}
use mathlib.Core.Path.{◌≡◌, refl, sym, ◌∙◌}
use mathlib.Core.Logic.{◌↔◌, inl, inr}
use mathlib.Core.Bool.{Bool, true, false, ◌&&◌}
use mathlib.Core.List.{List, [], ◌∷◌}
use native.Mathlib.Omega.{arith}
use flash_db.Base.Tests.{◌==◌, Bool-cases}

abbrev pub Bytes : Type 0
Bytes = List ℕ

-- The code points of a literal, which are its bytes since every literal of the program is ASCII.
abbrev pub codes : String → Bytes
codes String.[] = []
codes (String.◌∷◌ c s) = code c ∷ codes s

infix 50 ◌=ₛ◌
unfoldable pub ◌=ₛ◌ : Bytes → Bytes → Bool
[] =ₛ [] = true
[] =ₛ (b ∷ t) = false
(a ∷ s) =ₛ [] = false
(a ∷ s) =ₛ (b ∷ t) = (a == b) && (s =ₛ t)

pub eq_sound : (s t : Bytes) → (s =ₛ t) ≡ true → s ≡ t
unfolding ◌=ₛ◌
eq_sound [] [] h = refl
eq_sound [] (b ∷ t) h = cc
eq_sound (a ∷ s) [] h = cc
eq_sound (a ∷ s) (b ∷ t) h = ground (arith, eq_sound s t)

pub eq_refl : (s : Bytes) → (s =ₛ s) ≡ true
unfolding ◌=ₛ◌
eq_refl [] = refl
eq_refl (a ∷ s) = ground (arith, eq_refl s)

pub eq_iff : (s t : Bytes) → ((s =ₛ t) ≡ true) ↔ (s ≡ t)
eq_iff s t = (eq_sound s t, λ e. rw e (eq_refl t))

-- Two texts that differ are not both `j`.
pub apart : (k f j : Bytes) → (k =ₛ f) ≡ false → (k =ₛ j) ≡ true → (f =ₛ j) ≡ true → ⊥
apart k f j n a b =
    let same = (eq_iff k j).0 a ∙ sym ((eq_iff f j).0 b) in clash (k =ₛ f) n ((eq_iff k f).1 same)
  where
    clash : (x : Bool) → x ≡ false → x ≡ true → ⊥
    clash x h k = cc

pub flip_false : (a b : Bytes) → (a =ₛ b) ≡ false → (b =ₛ a) ≡ false
flip_false a b n = elim (Bool-cases (b =ₛ a)) [
  | inl e ↦ absurd (apart a b a n (eq_refl a) e)
  | inr e ↦ e
]
