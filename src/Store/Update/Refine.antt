-- ===== src/Store/Update/Refine.antt =====
-- The commands on one type of value against functions on what the value holds: a key stands for what its
-- value holds, and a missing or an expired key for the empty value of the type.
use flash_db.Base.{
  ◌≡◌, refl, sym, ap, ◌∙◌, Option, none, some, Bytes, ◌=ₛ◌, eq_refl, arith, if◌then◌else◌, inl, inr,
  true, false, Bool-cases,
}
use flash_db.Map.{get_ref, update_with}
use flash_db.Map.Laws.{changed, get_ref-insert, get_ref-update_with, update_with_result}
use flash_db.Value.{StoreValue, Clock, is_expired, FyroDb}
use flash_db.Store.{Store, Result, ok, err, wrong_type}
use flash_db.Store.Update.{on_entry, read_as, map_ok, or_absent, modify, upsert, put, settle}

module _ {Z S A : Type 0} (get : FyroDb Z S → Option A) (empty : A) where
  unfoldable pub view : Clock → Option (StoreValue Z S) → Result A
  view c none = ok empty
  view c (some v) =
      if is_expired c v
      then ok empty
      else elim (get v.value) [ none ↦ err wrong_type | some l ↦ ok l ]

  -- What a key stands for.
  unfoldable pub held : Clock → Store Z S → Bytes → Result A
  held c s key = view c (get_ref s.contents key)

  pub view_expired :
      (c : Clock) (v : StoreValue Z S) → is_expired c v ≡ true → view c (some v) ≡ ok empty
  unfolding view
  view_expired c v e = rw e refl

module _ {A R : Type 0} where
  -- What a command does to a value that is there, or to the error that is there instead.
  unfoldable pub outcome : (A → A × Result R) → Result A → Result A × Result R
  outcome spec (ok l) = (ok (spec l).0, (spec l).1)
  outcome spec (err e) = (err e, err e)

module _ {Z S A R : Type 0} (get : FyroDb Z S → Option A) (empty : A) where
  -- The command acts on the value of `key` as `spec` does, and on no other key.
  abbrev pub Refines :
      Clock → Store Z S → Bytes → Store Z S × Result R → (A → A × Result R) → Bytes → Type 0
  Refines c s key done spec j =
      ((held get empty c done.0 key, done.1) ≡ outcome spec (held get empty c s key))
      × (get_ref done.0.contents j
          ≡ (if key =ₛ j then get_ref done.0.contents key else get_ref s.contents j))

  -- The same for the closure of a command, at the value that it is run on.
  abbrev pub EntryRefines :
      Clock → (StoreValue Z S → StoreValue Z S × Result R) → (A → A × Result R) → Type 0
  EntryRefines c f spec =
      (v : StoreValue Z S)
      → (view get empty c (some (f v).0), (f v).1) ≡ outcome spec (view get empty c (some v))

  -- The value that is left where `o` was, and the result, for a key that is not stored anew.
  after_entry :
      (c : Clock) (f : StoreValue Z S → StoreValue Z S × Result R) (absent : R)
      (spec : A → A × Result R)
      → EntryRefines c f spec
      → spec empty ≡ (empty, ok absent)
      → (o : Option (StoreValue Z S))
      → ◌≡◌ {A = Result A × Result R}
          (
            view get empty c (elim o [ none ↦ none | some v ↦ some (f v).0 ]),
            or_absent absent (elim o [ none ↦ none | some v ↦ some (f v).1 ]),
          )
          (outcome spec (view get empty c o))
  unfolding or_absent view outcome
  after_entry c f absent spec h e none = ap (λ p. (ok p.0, p.1)) (sym e)
  after_entry c f absent spec h e (some v) = h v

  pub modify-Refines :
      (c : Clock) (s : Store Z S) (key j : Bytes) (f : StoreValue Z S → StoreValue Z S × Result R)
      (absent : R) (spec : A → A × Result R)
      → EntryRefines c f spec
      → spec empty ≡ (empty, ok absent)
      → Refines c s key (modify s key f absent) spec j
  unfolding modify held
  modify-Refines c s key j f absent spec h e =
      let k = get_ref-update_with s.contents key key f in
      let i = get_ref-update_with s.contents key j f in
      let r = update_with_result s.contents key j f in
      let q = eq_refl key in
      rw (k, i, r, q) (after_entry c f absent spec h e (get_ref s.contents key), refl)

  settled :
      (c : Clock) (s : Store Z S) (key j : Bytes) (f : StoreValue Z S → StoreValue Z S × Result R)
      (value : StoreValue Z S) (absent : R) (spec : A → A × Result R)
      → EntryRefines c f spec
      → outcome spec (view get empty c none) ≡ (view get empty c (some value), ok absent)
      → (o : Option (StoreValue Z S)) → get_ref s.contents key ≡ o
      → let done =
          settle s
            (update_with s.contents key f).0
            key
            value
            absent
            (elim o [ none ↦ none | some v ↦ some (f v).1 ]) in
        ((held get empty c done.0 key, done.1) ≡ outcome spec (view get empty c o))
        × (get_ref done.0.contents j
            ≡ (if key =ₛ j then get_ref done.0.contents key else get_ref s.contents j))
  unfolding held put settle
  settled c s key j f value absent spec h e none n =
      let a = get_ref-insert s.contents key key value in
      let b = get_ref-insert s.contents key j value in
      (rw (a, eq_refl key) (sym e), rw (a, b, eq_refl key) refl)
  settled c s key j f value absent spec h e (some v) n =
      let k = get_ref-update_with s.contents key key f in
      let i = get_ref-update_with s.contents key j f in
      (rw (k, eq_refl key, n, changed) (h v), rw (k, i, eq_refl key) refl)

  -- A command that stores a value if the key is missing, which acts on the empty one then.
  pub upsert-Refines :
      (c : Clock) (s : Store Z S) (key j : Bytes) (f : StoreValue Z S → StoreValue Z S × Result R)
      (value : StoreValue Z S) (absent : R) (spec : A → A × Result R)
      → EntryRefines c f spec
      → outcome spec (view get empty c none) ≡ (view get empty c (some value), ok absent)
      → Refines c s key (upsert s key f value absent) spec j
  unfolding upsert held
  upsert-Refines c s key j f value absent spec h e =
      rw (update_with_result s.contents key j f)
        (settled c s key j f value absent spec h e (get_ref s.contents key) refl)

  live_entry :
      (write : A → FyroDb Z S) (c : Clock) (expired : StoreValue Z S → StoreValue Z S × Result R)
      (spec : A → A × Result R)
      → ((a : A) → get (write a) ≡ some a)
      → (v : StoreValue Z S) → is_expired c v ≡ false
      → (o : Option A) → get v.value ≡ o
      → (
        view get empty c (some (on_entry get write c expired spec v).0),
        (on_entry get write c expired spec v).1,
      )
        ≡ outcome spec (view get empty c (some v))
  unfolding on_entry view outcome is_expired
  live_entry write c expired spec w v x none e = rw (on_entry, x, e, view, x, e) refl
  live_entry write c expired spec w v x (some a) e = rw (on_entry, x, e, view, x, w) refl

  -- `on_entry` acts on what the value holds as its function does, if a write is read back and an
  -- expired value is dealt with as the empty one.
  pub on_entry-EntryRefines :
      (write : A → FyroDb Z S) (c : Clock) (expired : StoreValue Z S → StoreValue Z S × Result R)
      (spec : A → A × Result R)
      → ((a : A) → get (write a) ≡ some a)
      → ((v : StoreValue Z S)
          → is_expired c v ≡ true
          → (view get empty c (some (expired v).0), (expired v).1) ≡ outcome spec (ok empty))
      → EntryRefines c (on_entry get write c expired spec) spec
  unfolding on_entry
  on_entry-EntryRefines write c expired spec w x v = elim (Bool-cases (is_expired c v)) [
    | inl e ↦ rw (on_entry, e) (x v e ∙ ap (outcome spec) (sym (view_expired get empty c v e)))
    | inr e ↦ live_entry write c expired spec w v e (get v.value) refl
  ]

module _ {Z S A R : Type 0} (get : FyroDb Z S → Option A) (empty : A) where
  -- A read is a function of what the key stands for, if it gives for a missing key what it gives
  -- for the empty value.
  pub read_as-held :
      (c : Clock) (s : Store Z S) (key : Bytes) (absent : R) (f : A → R)
      → f empty ≡ absent
      → read_as get c s key absent f ≡ map_ok f (held get empty c s key)
  unfolding read_as held view map_ok
  read_as-held c s key absent f e = rw (← e) (ground arith)
