-- ===== src/Resp/Tests.antt =====
-- The theorems on the reply writers at small replies.
use flash_db.Base.{List, [], ◌∷◌, Bytes, codes}

abbrev names : List Bytes
names = codes "GET" ∷ codes "key" ∷ []
