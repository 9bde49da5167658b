-- ===== src/Store/Lists/Refine.antt =====
-- The list commands against functions on lists: a key stands for its list, and a missing or an expired
-- key for the empty one.
use flash_db.Base.{◌≡◌, Option, none, some, List, [], Bytes, ◌=ₛ◌, if◌then◌else◌}
use flash_db.Map.{get_ref}
use flash_db.Value.{StoreValue, Clock, as_list}
use flash_db.Store.{Store, Result, ok}
use flash_db.Store.Update.{modify, upsert}
use flash_db.Store.Update.Refine
unfoldable pub use flash_db.Store.Update.Refine.{outcome}

module _ {Z S : Type 0} where
  unfoldable pub view : Clock → Option (StoreValue Z S) → Result (List Bytes)
  unfolding Refine.view
  view c o = Refine.view as_list [] c o

  -- The list that a key stands for.
  unfoldable pub listed : Clock → Store Z S → Bytes → Result (List Bytes)
  listed c s key = view c (get_ref s.contents key)

module _ {Z S R : Type 0} where
  -- The command acts on the list of `key` as `spec` does, and on no other key.
  abbrev pub Refines :
      Clock
      → Store Z S
      → Bytes
      → Store Z S × Result R
      → (List Bytes → List Bytes × Result R)
      → Bytes
      → Type 0
  Refines c s key done spec j =
      ((listed c done.0 key, done.1) ≡ outcome spec (listed c s key))
      × (get_ref done.0.contents j
          ≡ (if key =ₛ j then get_ref done.0.contents key else get_ref s.contents j))

  -- The same for the closure of a command, at the value that it is run on.
  abbrev pub EntryRefines :
      Clock
      → (StoreValue Z S → StoreValue Z S × Result R)
      → (List Bytes → List Bytes × Result R)
      → Type 0
  EntryRefines c f spec =
      (v : StoreValue Z S) → (view c (some (f v).0), (f v).1) ≡ outcome spec (view c (some v))

  pub modify-Refines :
      (c : Clock) (s : Store Z S) (key j : Bytes) (f : StoreValue Z S → StoreValue Z S × Result R)
      (absent : R) (spec : List Bytes → List Bytes × Result R)
      → EntryRefines c f spec
      → spec [] ≡ ([], ok absent)
      → Refines c s key (modify s key f absent) spec j
  unfolding view listed Refine.held
  modify-Refines c s key j f absent spec h e =
      Refine.modify-Refines as_list [] c s key j f absent spec h e

  pub upsert-Refines :
      (c : Clock) (s : Store Z S) (key j : Bytes) (f : StoreValue Z S → StoreValue Z S × Result R)
      (value : StoreValue Z S) (absent : R) (spec : List Bytes → List Bytes × Result R)
      → EntryRefines c f spec
      → outcome spec (view {Z = Z} {S = S} c none)
        ≡ (view {Z = Z} {S = S} c (some value), ok absent)
      → Refines c s key (upsert s key f value absent) spec j
  unfolding view listed Refine.held
  upsert-Refines c s key j f value absent spec h e =
      Refine.upsert-Refines as_list [] c s key j f value absent spec h e
