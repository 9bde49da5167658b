-- ===== src/Store/Lists/Contents.antt =====
-- What LPUSH, LRANGE, LTRIM and LMOVE do that the functions on lists of Lists/Commands do not say.
use flash_db.Base.{
  ℕ, ◌+◌, ◌-◌, ◌<◌, ◌%◌, ◌^◌, ◌≡◌, refl, sym, ap, ◌∙◌, inl, inr, Bool, true, false, Option, none,
  some, List, [], ◌∷◌, ◌++◌, reverse, Bytes, length, take, drop, min, leb, ltb, ◌||◌, if◌then◌else◌,
  Bool-cases, Option-cases, eq_refl, take-min, append-nil, drop-nil, take-nil, arith,
}
use mathlib.Core.List.{reverse-reverse}
use flash_db.Base.Int.{ℤ, pos, negsuc}
use flash_db.Map.{find, occupied, get_ref, read_consistent, update_with}
use flash_db.Map.Laws.{changed, get_ref-insert, get_ref-update_with, update_with_result}
use flash_db.Value.{StoreValue, Clock, is_expired, as_list}
use flash_db.Store.{Store, Result, ok, err}
use flash_db.Store.Lists.{fresh, lpush, lpush_entry, lrange, lrange_entry}
use flash_db.Store.Update.{or_absent, settle, put, upsert}
use flash_db.Store.Lists.Edit.{ltrim}
use flash_db.Store.Lists.Refine.{view, listed, outcome}
use flash_db.Store.Lists.Entries.{view-fresh, live_entry}
use flash_db.Store.Lists.Commands.{ltrim-Refines}
use flash_db.Store.Lists.Deque.{Deque, push_fronts, trim, range, clamp_start, clamp_stop}
use flash_db.Store.Lists.Deque.Loops.{push_fronts-eq-reverse}

clamp_stop_bound : (len : ℕ) (stop : ℤ) → 0 < len → clamp_stop len stop < len
unfolding clamp_stop
clamp_stop_bound len (pos n) h = ground arith
clamp_stop_bound len (negsuc n) h = ground arith

same_if : (b : Bool) → ◌≡◌ {A = List Bytes} (if b then [] else []) []
same_if true = refl
same_if false = refl

in_range :
    (l : List Bytes) (s e : ℕ)
    → e < length l
    → length l < 2 ^ 64
    → ◌≡◌ {A = List Bytes} (if ltb e s then [] else take ((e - s + 1) % 2 ^ 64) (drop s l)) (
        if ltb e s || leb (length l) s
        then []
        else take (min (e - s + 1) (length (drop s l))) (drop s l))
in_range l s e h b = elim (Bool-cases (ltb e s)) [
  | inl x ↦ rw x refl
  | inr x ↦
      let m : (e - s + 1) % 2 ^ 64 ≡ e - s + 1 = ground arith in
      let k : leb (length l) s ≡ false = ground arith in
      rw (x, m, k, take-min (e - s + 1) (drop s l)) refl
]

range-nil : (start stop : ℤ) → range [] start stop ≡ []
unfolding range
range-nil start stop =
    let s = clamp_start 0 start in
    let e = clamp_stop 0 stop in
    rw (drop-nil {A = Bytes} s, take-nil {A = Bytes} ((e - s + 1) % 2 ^ 64)) (same_if _)

-- LRANGE returns what LTRIM with the same bounds leaves, of a list of fewer than 2 ^ 64 elements.
pub range-eq-trim :
    (l : Deque) (start stop : ℤ) → length l < 2 ^ 64 → range l start stop ≡ trim l start stop
unfolding range trim
range-eq-trim [] start stop h =
    let s = clamp_start 0 start in
    let e = clamp_stop 0 stop in
    rw
      (
        drop-nil {A = Bytes} s,
        take-nil {A = Bytes} (min (e - s + 1) 0),
        take-nil {A = Bytes} ((e - s + 1) % 2 ^ 64),
      )
      (same_if _ ∙ sym (same_if _))
range-eq-trim (v ∷ l) start stop h =
    let n = length (v ∷ l) in
    in_range (v ∷ l) (clamp_start n start) (clamp_stop n stop)
      (clamp_stop_bound n stop (omega arith)) h

module _ {Z S : Type 0} (c : Clock) (start stop : ℤ) where
  lrange_entry-eq-range :
      (v : StoreValue Z S)
      → lrange_entry c start stop v
        ≡ (outcome {R = Unit} (λ l. (range l start stop, ok tt)) (view c (some v))).0
  unfolding lrange_entry outcome view
  lrange_entry-eq-range v = elim (Bool-cases (is_expired c v)) [
    | inl x ↦ rw x (sym (ap ok (range-nil start stop)))
    | inr x ↦
        rw x (elim (Option-cases (as_list v.value)) [ inl n ↦ rw n refl | inr (l, n) ↦ rw n refl ])
  ]

  lrange_entries :
      (o : Option (Option (StoreValue Z S)))
      → or_absent [] (elim o [
        | none ↦ none
        | some none ↦ none
        | some (some v) ↦ some (lrange_entry c start stop v)
      ])
        ≡ (outcome {R = Unit} (λ l. (range l start stop, ok tt)) (view c (occupied o))).0
  unfolding or_absent outcome view
  lrange_entries none = sym (ap ok (range-nil start stop))
  lrange_entries (some none) = sym (ap ok (range-nil start stop))
  lrange_entries (some (some v)) = lrange_entry-eq-range v

  -- LRANGE reads the list of a key.
  pub lrange-eq-range :
      (s : Store Z S) (key : Bytes)
      → lrange c s key start stop
        ≡ (outcome {R = Unit} (λ l. (range l start stop, ok tt)) (listed c s key)).0
  unfolding lrange read_consistent listed get_ref
  lrange-eq-range s key = lrange_entries (find key s.contents.entries)

unfoldable pub before : List Bytes → Result (List Bytes) → Result (List Bytes)
before values (ok l) = ok (values ++ l)
before values (err e) = err e

outcome-before :
    (values : List Bytes) (r : Result (List Bytes))
    → (outcome {R = ℕ} (λ l. (push_fronts values l, ok (length (push_fronts values l)))) r).0
      ≡ before (reverse values) r
unfolding outcome before
outcome-before values (ok l) = ap ok (push_fronts-eq-reverse values l)
outcome-before values (err e) = refl

trimmed :
    (start stop : ℤ) (r : Result (List Bytes))
    → ((l : List Bytes) → r ≡ ok l → length l < 2 ^ 64)
    → (outcome {R = Unit} (λ l. (range l start stop, ok tt)) r).0
      ≡ (outcome {R = Unit} (λ l. (trim l start stop, ok tt)) r).0
unfolding outcome
trimmed start stop (ok l) h = ap ok (range-eq-trim l start stop (h l refl))
trimmed start stop (err e) h = refl

module _ {Z S : Type 0} (c : Clock) (s : Store Z S) where
  -- LRANGE on a key returns the list that the key stands for after LTRIM with the same bounds, or
  -- the same error, provided that the key's list, if it has one, has fewer than 2 ^ 64 elements.
  pub lrange-ltrim :
      (key : Bytes) (start stop : ℤ)
      → ((l : List Bytes) → listed c s key ≡ ok l → length l < 2 ^ 64)
      → lrange c s key start stop ≡ listed c (ltrim c s key start stop).0 key
  lrange-ltrim key start stop h =
      lrange-eq-range c start stop s key
      ∙ trimmed start stop (listed c s key) h
      ∙ sym (ap (λ p. p.0) ((ltrim-Refines c s key key start stop).0))

  -- What a key stands for after LPUSH on what it holds.
  unfoldable pub pushed : List Bytes → Option (StoreValue Z S) → Result (List Bytes)
  pushed values none = ok (reverse values)
  pushed values (some v) =
      if is_expired c v then ok values else before (reverse values) (view c (some v))

  pushed_entry :
      (values : List Bytes) (v : StoreValue Z S)
      → view c (some (lpush_entry c values v).0) ≡ pushed values (some v)
  unfolding lpush_entry pushed
  pushed_entry values v = elim (Bool-cases (is_expired c v)) [
    | inl x ↦
        rw
          (
            x,
            view-fresh Z S c (push_fronts (reverse values) []),
            push_fronts-eq-reverse (reverse values) [],
            reverse-reverse values,
          )
          (ap ok (append-nil values))
    | inr x ↦
        let f : List Bytes → List Bytes × Result ℕ =
          λ l. (push_fronts values l, ok (length (push_fronts values l))) in
        rw x (ap (λ p. p.0) (live_entry c f v x) ∙ outcome-before values (view c (some v)))
  ]

  lpush_settled :
      (key : Bytes) (values : List Bytes) (o : Option (StoreValue Z S))
      → get_ref s.contents key ≡ o
      → let entry = lpush_entry c values in
        view c (
          get_ref
            (settle s
              (update_with s.contents key entry).0
              key
              (fresh (push_fronts values []))
              (length (push_fronts values []))
              (elim o [ none ↦ none | some v ↦ some (entry v).1 ])).0.contents
            key)
        ≡ pushed values o
  unfolding settle put pushed
  lpush_settled key values none n =
      let l = push_fronts values [] in
      rw
        (
          get_ref-insert s.contents key key (fresh l),
          eq_refl key,
          view-fresh Z S c l,
          push_fronts-eq-reverse values [],
        )
        (ap ok (append-nil (reverse values)))
  lpush_settled key values (some v) n =
      rw (get_ref-update_with s.contents key key (lpush_entry c values), eq_refl key, n, changed)
        (pushed_entry values v)

  -- LPUSH leaves the values in reverse before the list of a key, or alone if the key is missing; in
  -- place of an expired value it leaves them in the order in which they were given.
  pub listed-lpush :
      (key : Bytes) (values : List Bytes)
      → listed c (lpush c s key values).0 key ≡ pushed values (get_ref s.contents key)
  unfolding lpush upsert listed
  listed-lpush key values =
      rw (update_with_result s.contents key key (lpush_entry c values))
        (lpush_settled key values (get_ref s.contents key) refl)
