-- ===== src/Value/Collections/Hash/Tests.antt =====
-- The theorems on hashes at a hash of two fields.
use flash_db.Base.{◌≡◌, refl, false, none, [], ◌∷◌, codes, ◌=ₛ◌, if◌then◌else◌}
use flash_db.Value.Collections.{HashInner}
use flash_db.Value.Collections.Hash.{get, remove}
use flash_db.Value.Collections.Hash.Fields.{IsHash}
use flash_db.Value.Collections.Hash.Removal.{remove_lem}

abbrev user : HashInner
user = HashInner.compact (codes "name" ∷ codes "Ann" ∷ codes "age" ∷ codes "7" ∷ [])

fields_differ : (codes "age" =ₛ codes "name") ≡ false
unfolding ◌=ₛ◌
fields_differ = refl

user-IsHash : IsHash user
user-IsHash = ((fields_differ, tt), (tt, tt))

remove_lem_example :
    (get (remove user (codes "name")).0 (codes "name")
      ≡ (if codes "name" =ₛ codes "name" then none else get user (codes "name")))
    × IsHash (remove user (codes "name")).0
remove_lem_example = remove_lem user (codes "name") (codes "name") user-IsHash
