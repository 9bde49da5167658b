-- ===== src/Store/Hashes/Setting.antt =====
-- HSET in terms of HGET and HLEN.
use flash_db.Base.{
  ℕ, ◌+◌, ◌*◌, ◌≡◌, refl, sym, ap, ◌∙◌, inl, inr, false, Option, none, some, [], ◌∷◌, Bytes, length,
  ◌=ₛ◌, if◌then◌else◌, Bool-cases, arith,
}
use flash_db.Map.{get_ref}
use flash_db.Value.{FyroDb, hash, StoreValue, Clock, is_expired, as_hash}
use flash_db.Value.Collections.{HashInner, Pairs}
use flash_db.Value.Collections.Hash.{get, insert_small, contains_key, len, flat, pairs_len, map_get}
use flash_db.Value.Collections.Hash.Fields.{IsHash, flat_get-flat}
use flash_db.Value.Collections.Hash.Insertion.{insert_small_lem}
use flash_db.Store.{Store, Result, ok, err}
use flash_db.Store.Update.{map_ok, on_entry, read_as}
use flash_db.Store.Update.Refine
use flash_db.Store.Update.Refine.{view, held, outcome, Refines, EntryRefines}
use flash_db.Store.Hashes.{hset_loop, hset_fields, hset_entry, hset, hget, hlen, compact_hash}

-- The value that a field has after the pairs are set one after the other.
abbrev pub last_given : Bytes → Pairs → Option Bytes → Option Bytes
last_given j [] o = o
last_given j ((f, v) ∷ fields) o = last_given j fields (if f =ₛ j then some v else o)

hset_loop_lem :
    (fields : Pairs) (h : HashInner) (n : ℕ) (j : Bytes)
    → IsHash h
    → let done = hset_loop fields h n in
      IsHash done.0 × (get done.0 j ≡ last_given j fields (get h j))
unfolding hset_loop
hset_loop_lem [] h n j w = (w, refl)
hset_loop_lem ((f, v) ∷ fields) h n j w =
    let i = insert_small_lem h f v j w in
    let l =
      hset_loop_lem fields (insert_small h f v).0 (if contains_key h f then n else n + 1) j i.1 in
    (l.0, l.1 ∙ ap (last_given j fields) i.0)

-- What a key holds of a type, where one that is missing or has expired holds nothing.
abbrev pub known : {Z S A : Type 0} → (FyroDb Z S → Option A) → FyroDb Z S → Option (Option A)
known get v = elim (get v) [ none ↦ none | some a ↦ some (some a) ]

abbrev pub hset_spec : Pairs → Option HashInner → Option HashInner × Result ℕ
hset_spec fields none = (some (HashInner.compact (flat fields)), ok (length fields))
hset_spec fields (some h) = (some (hset_fields fields h).0, (hset_fields fields h).1)

as_hash-hash : (Z S : Type 0) (h : HashInner) → as_hash {Z = Z} {S = S} (hash h) ≡ some h
unfolding as_hash
as_hash-hash Z S h = refl

view-compact_hash :
    (Z S : Type 0) (c : Clock) (fields : Pairs)
    → view (known as_hash) none c (some (compact_hash {Z = Z} {S = S} fields))
      ≡ ok (some (HashInner.compact (flat fields)))
unfolding view is_expired as_hash
view-compact_hash Z S c fields = refl

module _ {Z S : Type 0} (c : Clock) (fields : Pairs) where
  hset_live :
      (v : StoreValue Z S)
      → is_expired c v ≡ false
      → (o : Option HashInner) → as_hash v.value ≡ o
      → (view (known as_hash) none c (some (hset_entry c fields v).0), (hset_entry c fields v).1)
        ≡ outcome (hset_spec fields) (view (known as_hash) none c (some v))
  unfolding hset_entry on_entry view outcome is_expired
  hset_live v x none e = rw (hset_entry, on_entry, x, e, view, x, e) refl
  hset_live v x (some h) e =
      rw (hset_entry, on_entry, x, e, view, x, as_hash-hash Z S (hset_fields fields h).0) refl

  hset_entry-EntryRefines :
      EntryRefines (known (as_hash {Z = Z} {S = S})) none c (hset_entry c fields) (hset_spec fields)
  unfolding hset_entry on_entry outcome
  hset_entry-EntryRefines v = elim (Bool-cases (is_expired c v)) [
    | inl e ↦
        rw (hset_entry, on_entry, e)
          (ap (λ h. (h, ok (length fields))) (view-compact_hash Z S c fields)
            ∙ ap (outcome (hset_spec fields))
                (sym (Refine.view_expired (known as_hash) none c v e)))
    | inr e ↦ hset_live v e (as_hash v.value) refl
  ]

  hset-Refines :
      (s : Store Z S) (key k : Bytes)
      → Refines (known as_hash) none c s key (hset c s key fields) (hset_spec fields) k
  unfolding hset outcome view
  hset-Refines s key k =
      Refine.upsert-Refines (known as_hash) none c s key k (hset_entry c fields)
        (compact_hash fields) (length fields) (hset_spec fields) hset_entry-EntryRefines
        (rw (view-compact_hash Z S c fields) refl)

-- The hash that a key holds, if it holds one that has not expired.
abbrev pub hash_at : {Z S : Type 0} → Clock → Bytes → Store Z S → Result (Option HashInner)
hash_at c key t = held (known as_hash) none c t key

-- It has no field twice.
abbrev pub IsHashAt : Result (Option HashInner) → Type 0
IsHashAt (ok none) = Unit
IsHashAt (ok (some h)) = IsHash h
IsHashAt (err e) = Unit

abbrev pub value_of : Bytes → Option HashInner → Option Bytes
value_of j none = none
value_of j (some h) = get h j

hget-hash_at :
    {Z S : Type 0} (c : Clock) (s t : Store Z S) (key j : Bytes)
    → hget c t key j ≡ map_ok (value_of j) (held (known as_hash) none c t key)
unfolding hget read_as held view map_ok
hget-hash_at c s t key j = ground arith

hlen-hash_at :
    {Z S : Type 0} (c : Clock) (t : Store Z S) (key : Bytes)
    → hlen c t key ≡ map_ok (λ o. elim o [ none ↦ 0 | some h ↦ len h ]) (hash_at c key t)
unfolding hlen read_as held view map_ok
hlen-hash_at c t key = ground arith

-- The value of a field after HSET: the first one that is given where the key holds nothing, and the
-- last one over a hash that is there.
abbrev pub hget_after : Pairs → Bytes → Result (Option HashInner) → Result (Option Bytes)
hget_after fields j (err e) = err e
hget_after fields j (ok none) = ok (map_get j fields)
hget_after fields j (ok (some h)) = ok (last_given j fields (get h j))

set_at :
    (fields : Pairs) (j : Bytes) (r : Result (Option HashInner))
    → IsHashAt r
    → map_ok (value_of j) (outcome (hset_spec fields) r).0 ≡ hget_after fields j r
unfolding map_ok outcome hset_fields get
set_at fields j (err e) w = refl
set_at fields j (ok none) w = ap ok (flat_get-flat j fields)
set_at fields j (ok (some h)) w = ap ok (hset_loop_lem fields h 0 j w).1

pairs_len-flat : (fields : Pairs) → pairs_len (flat fields) ≡ length fields
unfolding pairs_len flat
pairs_len-flat fields = omega (arith, doubled fields)
  where
    doubled : (m : Pairs) → length (flat m) ≡ length m * 2
    doubled [] = refl
    doubled ((k, x) ∷ m) = omega (arith, doubled m)

module _ {Z S : Type 0} (c : Clock) (s : Store Z S) (key : Bytes) (fields : Pairs)
    (j k : Bytes) where
  -- Where the key holds a hash with no field twice, HGET after HSET finds the last value given for
  -- the field, or what it found before; where the key is missing or has expired, it finds the first
  -- value given; a key of another type stays an error; and no other key changes.
  pub hset_lem :
      IsHashAt (hash_at c key s)
      → let done = hset c s key fields in
        (hget c done.0 key j ≡ hget_after fields j (hash_at c key s))
        × (get_ref done.0.contents k
            ≡ (if key =ₛ k then get_ref done.0.contents key else get_ref s.contents k))
  hset_lem w =
      let done = hset c s key fields in
      let f = hset-Refines c fields s key k in
      (
        hget-hash_at c s done.0 key j
            ∙ ap (λ p. map_ok (value_of j) p.0) f.0
            ∙ set_at fields j (hash_at c key s) w,
        f.1,
      )

  -- On a key that is missing or has expired HSET counts every pair, also one whose field was given
  -- before, and so does HLEN then.
  pub hset_vacant :
      hash_at c key s ≡ ok none
      → let done = hset c s key fields in
        (done.1 ≡ ok (length fields)) × (hlen c done.0 key ≡ ok (length fields))
  unfolding outcome map_ok len
  hset_vacant e =
      let done = hset c s key fields in
      let f = (hset-Refines c fields s key k).0 ∙ ap (outcome (hset_spec fields)) e in
      (
        ap (λ p. p.1) f,
        hlen-hash_at c done.0 key
            ∙ ap (λ p. map_ok (λ o. elim o [ none ↦ 0 | some h ↦ len h ]) p.0) f
            ∙ ap ok (pairs_len-flat fields),
      )
