-- ===== src/Util/Tests.antt =====
-- The theorems on the glob matcher at small patterns and texts.
use flash_db.Base.{◌+◌, ◌*◌, ◌≡◌, ◌≢◌, refl, true, false, none, Bytes, codes, length, arith}
use flash_db.Util.{glob_loop, glob_match, glob_match_bytes, retry, only_stars}
use flash_db.Util.Glob.{items, Matches}
use flash_db.Util.Correct.{glob_loop-ne-none, star_text_missed}

abbrev pattern_ : Bytes
pattern_ = codes "user:*"

abbrev text : Bytes
text = codes "user:1"

accepted : glob_match_bytes pattern_ text ≡ true
unfolding glob_match_bytes glob_loop retry only_stars
accepted = refl

refused : glob_match (codes "h?llo") (codes "hllo") ≡ false
unfolding glob_match glob_match_bytes glob_loop retry only_stars
refused = refl

glob_loop-ne-none_example :
    glob_loop ((length text + 1) * (length pattern_ + 1)) pattern_ text none ≢ none
glob_loop-ne-none_example = glob_loop-ne-none pattern_ text

star_text_missed_example :
    (glob_match_bytes (codes "*c") (codes "*dc") ≡ false)
    × Matches (items (codes "*c")) (codes "*dc")
star_text_missed_example = star_text_missed b'c' b'd' (ground arith) (ground arith) (ground arith)
