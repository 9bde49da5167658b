-- ===== src/Util/Correct.antt =====
-- What `glob_match` answers, against the definition of a match.
use flash_db.Base.{ℕ, ◌+◌, ◌*◌, ◌≡◌, ◌≢◌, true, false, none, [], ◌∷◌, Bytes, length, arith}
use flash_db.Util.{glob_loop, glob_match_bytes}
use flash_db.Util.Glob.{items, Matches, nil, one, skip, take}
use flash_db.Util.Decides.{loop_start-Verdict}

-- The fuel of `glob_match_bytes` is enough for every pattern and every text: the loop ends by
-- itself.
pub glob_loop-ne-none : (p s : Bytes) → glob_loop ((length s + 1) * (length p + 1)) p s none ≢ none
glob_loop-ne-none p s e = rw e at (loop_start-Verdict p s)

-- Whatever the text holds, a pattern that `glob_match_bytes` accepts does match the text.
pub glob_match_bytes_sound : (p s : Bytes) → glob_match_bytes p s ≡ true → Matches (items p) s
unfolding glob_match_bytes
glob_match_bytes_sound p s h = ground (arith, loop_start-Verdict p s)

-- A `*` of the text that meets the first `*` of the pattern is taken for that byte alone, and the
-- star is lost: for plain bytes `c` and `d` the pattern `*c` matches the text `*dc` and is refused.
pub star_text_missed :
    (c d : ℕ)
    → c ≢ b'*'
    → c ≢ b'?'
    → d ≢ c
    → (glob_match_bytes (b'*' ∷ c ∷ []) (b'*' ∷ d ∷ c ∷ []) ≡ false)
      × Matches (items (b'*' ∷ c ∷ [])) (b'*' ∷ d ∷ c ∷ [])
unfolding glob_match_bytes
star_text_missed c d h k n = (ground arith, take (take (skip (one (ground arith) nil))))
