-- ===== src/Store/Lists/Entries.antt =====
-- The closures of the list commands against functions on lists, at every value that a key can hold.
use flash_db.Base.{
  ℕ, ◌≡◌, refl, sym, ap, inl, inr, true, false, not, ◌&&◌, ◌==◌, leb, none, some, List, [], Bytes,
  if◌then◌else◌, Bool-cases,
}
use flash_db.Value.{
  FyroDb, string, hash, list, set, zset, json, stream, StoreValue, Clock, is_expired, approx_now_ms,
  as_list, with_list,
}
use flash_db.Value.Collections.{ListInner, deque, with_deque}
use flash_db.Store.{Result, ok}
use flash_db.Store.Lists.{on_list, fresh}
use flash_db.Store.Lists.Refine.{view, outcome, EntryRefines}

pub view-fresh :
    (Z S : Type 0) (c : Clock) (l : List Bytes)
    → view {Z = Z} {S = S} c (some (fresh {Z = Z} {S = S} l)) ≡ ok l
unfolding view is_expired fresh as_list deque
view-fresh Z S c l = refl

pub view-full :
    (Z S : Type 0) (c : Clock) (l : List Bytes)
    → view {Z = Z} {S = S} c (some (record { value = list (ListInner.full l); expires_ms = 0 }))
      ≡ ok l
unfolding view is_expired as_list deque
view-full Z S c l = refl

pub view-none : (Z S : Type 0) (c : Clock) → view {Z = Z} {S = S} c none ≡ ok []
unfolding view
view-none Z S c = refl

module _ {Z S R : Type 0} (c : Clock) (f : List Bytes → List Bytes × Result R) where
  -- A closure on a list of a value that is not expired.
  live :
      (e : ℕ)
      → (not (e == 0) && leb e (approx_now_ms c)) ≡ false
      → (x : FyroDb Z S)
      → let v : StoreValue Z S = record { value = x; expires_ms = e } in
        ◌≡◌ {A = Result (List Bytes) × Result R}
          (view c (some (on_list f v).0), (on_list f v).1)
          (outcome f (view c (some v)))
  unfolding view outcome on_list is_expired as_list with_list deque with_deque
  live e h (string b) = rw h refl
  live e h (hash b) = rw h refl
  live e h (list (ListInner.compact l)) = rw h refl
  live e h (list (ListInner.full l)) = rw h refl
  live e h (set b) = rw h refl
  live e h (zset b) = rw h refl
  live e h (json b) = rw h refl
  live e h (stream b) = rw h refl

  pub live_entry :
      (v : StoreValue Z S)
      → is_expired c v ≡ false
      → ◌≡◌ {A = Result (List Bytes) × Result R}
          (view c (some (on_list f v).0), (on_list f v).1)
          (outcome f (view c (some v)))
  unfolding is_expired
  live_entry v h = live v.expires_ms h v.value

  pub expired : (v : StoreValue Z S) → is_expired c v ≡ true → view c (some v) ≡ ok []
  unfolding view
  expired v h = rw h refl

  -- A closure that leaves an expired value, and takes it for the empty list.
  pub pop-EntryRefines :
      (absent : R)
      → f [] ≡ ([], ok absent)
      → EntryRefines {Z = Z} {S = S} c
          (λ v. if is_expired c v then (v, ok absent) else on_list f v)
          f
  unfolding outcome
  pop-EntryRefines absent h v = elim (Bool-cases (is_expired c v)) [
    | inl x ↦ rw (x, expired v x) (ap (λ p. (ok p.0, p.1)) (sym h))
    | inr x ↦ rw x (live_entry v x)
  ]

  -- A closure that replaces an expired value by the list that it makes of the empty one.
  pub push-EntryRefines :
      (l : List Bytes) (r : R)
      → f [] ≡ (l, ok r)
      → EntryRefines {Z = Z} {S = S} c
          (λ v. if is_expired c v then (fresh l, ok r) else on_list f v)
          f
  unfolding outcome
  push-EntryRefines l r h v = elim (Bool-cases (is_expired c v)) [
    | inl x ↦ rw (x, expired v x, view-fresh Z S c l) (ap (λ p. (ok p.0, p.1)) (sym h))
    | inr x ↦ rw x (live_entry v x)
  ]
