-- ===== src/Util.antt =====
-- src/utils/util.rs: `glob_match` and `glob_match_bytes`, the matcher of KEYS, SCAN and pub/sub.
pub mod Glob
pub mod Decides
pub mod Correct
mod Tests
use flash_db.Base.{
  ℕ, zero, suc, ◌+◌, ◌*◌, Bool, true, false, ◌||◌, Option, none, some, [], ◌∷◌, Bytes, length, drop,
  ◌==◌, if◌then◌else◌,
}

-- `star` and `retry_si`: the pattern behind the last star, and the text from `retry_si` on.
abbrev pub Back : Type 0
Back = Option (Bytes × Bytes)

abbrev pub Round : Type 0
Round = Bytes → Bytes → Back → Option Bool

-- The closing `while` and the test `pi == p.len()`.
pub only_stars : Bytes → Bool
only_stars [] = true
only_stars (b ∷ p) = let rest = only_stars p in if b == b'*' then rest else false

-- The last two branches of the loop; `next` is the loop itself.
pub retry : Back → Round → Option Bool
retry none next = some false
retry (some (bp, bs)) next = next bp (drop 1 bs) (some (bp, drop 1 bs))

-- The indices `pi` and `si` are the rests of the pattern and of the text. `none`: out of fuel.
pub glob_loop : ℕ → Round
glob_loop zero p s back = none
glob_loop (suc f) p [] back = some (only_stars p)
glob_loop (suc f) [] (c ∷ s) back = retry back (glob_loop f)
glob_loop (suc f) (b ∷ p) (c ∷ s) back =
    let onward = glob_loop f p s back in
    let starred = glob_loop f p (c ∷ s) (some (p, c ∷ s)) in
    let again = retry back (glob_loop f) in
    if (b == b'?') || (b == c) then onward else if b == b'*' then starred else again

abbrev pub or_false : Option Bool → Bool
or_false none = false
or_false (some r) = r

unfoldable pub glob_match_bytes : Bytes → Bytes → Bool
unfolding glob_loop retry only_stars
glob_match_bytes p s = or_false (glob_loop ((length s + 1) * (length p + 1)) p s none)

unfoldable pub glob_match : Bytes → Bytes → Bool
unfolding glob_match_bytes
glob_match pattern input = glob_match_bytes pattern input
