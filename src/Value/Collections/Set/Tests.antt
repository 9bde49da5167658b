-- ===== src/Value/Collections/Set/Tests.antt =====
-- The theorems on sets at a set of two strings and at one of two integers.
use flash_db.Base.{refl, [], ◌∷◌, codes, ◌=ₛ◌}
use flash_db.Base.Int.{pos, negsuc}
use flash_db.Value.Collections.{SetInner}
use flash_db.Value.Collections.Set.{insert, remove, member_of}
use flash_db.Value.Collections.Set.Laws.{IsSetInner, Inserted}
use flash_db.Value.Collections.Set.Insertion.{insert-Inserted}
use flash_db.Value.Collections.Set.Removal.{Removed, remove-Removed}

abbrev names : SetInner
names = SetInner.compact (codes "Ann" ∷ codes "Bob" ∷ [])

abbrev ids : SetInner
ids = SetInner.integers (negsuc 4 ∷ pos 7 ∷ [])

names-IsSetInner : IsSetInner names
unfolding member_of ◌=ₛ◌
names-IsSetInner = (refl, (refl, tt))

ids-IsSetInner : IsSetInner ids
ids-IsSetInner = (refl, (refl, tt), (refl, tt, tt))

insert-Inserted_example : Inserted (codes "Ann") ids (insert ids (codes "Ann"))
insert-Inserted_example = insert-Inserted ids (codes "Ann") ids-IsSetInner

remove-Removed_example : Removed (codes "Ann") names (remove names (codes "Ann"))
remove-Removed_example = remove-Removed names (codes "Ann") names-IsSetInner
