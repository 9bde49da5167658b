-- ===== src/Store/Lists/Commands.antt =====
-- The list commands as functions on lists. `listed` is what a key stands for; `Refines` says that a
-- command does to the list, returns and leaves at every key what its function on lists says.
use flash_db.Base.{
  ℕ, zero, suc, ◌+◌, ◌-◌, ◌≡◌, refl, sym, ap, ◌∙◌, Bool, true, false, List, [], ◌++◌, reverse,
  Bytes, length, take, drop, min, if◌then◌else◌, length-reverse, take-min, take-nil, drop-nil,
  drop-min,
}
use mathlib.Core.Path.{subst, fun_ext}
use flash_db.Base.Int.{ℤ, pos, negsuc}
use flash_db.Value.{list, StoreValue, Clock, is_expired}
use flash_db.Value.Collections.{ListInner}
use flash_db.Store.{Store, Result, ok}
use flash_db.Store.Lists.{on_list, rpush, rpush_entry, lpop, lpop_entry, rpop, rpop_entry}
use flash_db.Store.Update.{modify}
use flash_db.Store.Lists.Deque.{
  push_backs, pop_fronts, pop_backs, remove_all, remove_forward, remove_backward, trim, clamp_start,
  clamp_stop,
}
use flash_db.Store.Lists.Deque.Loops.{push_backs-eq-append, pop_fronts-eq-take, pop_backs-eq-take}
use flash_db.Store.Lists.Edit.{ltrim, ltrim_entry, lrem, lrem_entry, remove_count}
use flash_db.Store.Lists.Refine.{outcome, Refines, modify-Refines, upsert-Refines}
use flash_db.Store.Lists.Entries.{pop-EntryRefines, push-EntryRefines, view-full, view-none}

same_if : (b : Bool) → ◌≡◌ {A = List Bytes} (if b then [] else []) []
same_if true = refl
same_if false = refl

trim_nil : (start stop : ℤ) → trim [] start stop ≡ []
unfolding trim
trim_nil start stop =
    let s = clamp_start 0 start in
    rw (drop-nil {A = Bytes} s, take-nil {A = Bytes} (min (clamp_stop 0 stop - s + 1) 0))
      (same_if _)

remove_count_nil : (count : ℤ) (value : Bytes) → remove_count count value [] ≡ ([], 0)
unfolding remove_count remove_all remove_forward remove_backward
remove_count_nil (pos zero) value = refl
remove_count_nil (pos (suc n)) value = refl
remove_count_nil (negsuc n) value = refl

module _ (values : List Bytes) where
  rpush_list :
      (l : List Bytes)
      → ◌≡◌ {A = List Bytes × Result ℕ}
          (push_backs values l, ok (length (push_backs values l)))
          (l ++ values, ok (length (l ++ values)))
  rpush_list l = ap (λ m. (m, ok (length m))) (push_backs-eq-append values l)

module _ (count : ℕ) where
  lpop_list :
      (l : List Bytes)
      → (let (out, left) = pop_fronts (min count (length l)) l in
          ◌≡◌ {A = List Bytes × Result (List Bytes)}
            (left, ok out)
            (drop count l, ok (take count l)))
  lpop_list l =
      rw (pop_fronts-eq-take (min count (length l)) l, take-min count l, drop-min count l) refl

  rpop_list :
      (l : List Bytes)
      → (let (out, left) = pop_backs (min count (length l)) l in
          ◌≡◌ {A = List Bytes × Result (List Bytes)}
            (left, ok out)
            (reverse (drop count (reverse l)), ok (take count (reverse l))))
  rpop_list l =
      rw
        (
          pop_backs-eq-take (min count (length l)) l,
          sym (length-reverse l),
          take-min count (reverse l),
          drop-min count (reverse l),
        )
        refl

module _ {Z S R : Type 0} (c : Clock) (s : Store Z S) (key j : Bytes) where
  -- A command that changes no missing and no expired key.
  pop_command :
      (f spec : List Bytes → List Bytes × Result R) (absent : R)
      → ((l : List Bytes) → f l ≡ spec l)
      → spec [] ≡ ([], ok absent)
      → Refines c s key
          (modify s key (λ v. if is_expired c v then (v, ok absent) else on_list f v) absent)
          spec
          j
  pop_command f spec absent h e =
      let entry : StoreValue Z S → StoreValue Z S × Result R =
        λ v. if is_expired c v then (v, ok absent) else on_list f v in
      subst (λ sp. Refines c s key (modify s key entry absent) sp j) (fun_ext h)
        (modify-Refines c s key j entry absent f (pop-EntryRefines c f absent (h [] ∙ e))
          (h [] ∙ e))

module _ {Z S : Type 0} (c : Clock) (s : Store Z S) (key j : Bytes) where
  -- RPUSH appends the values in order to the list that the key stands for, the empty one if the key
  -- is missing or expired, and returns the new length; on a key of another type it fails and the
  -- key still stands for no list; it changes no other key.
  pub rpush-Refines :
      (values : List Bytes)
      → Refines c s key (rpush c s key values) (λ l. (l ++ values, ok (length (l ++ values)))) j
  unfolding rpush rpush_entry outcome
  rpush-Refines values =
      let f : List Bytes → List Bytes × Result ℕ =
        λ l. (push_backs values l, ok (length (push_backs values l))) in
      let l = push_backs values [] in
      subst (λ spec. Refines c s key (rpush c s key values) spec j) (fun_ext (rpush_list values))
        (upsert-Refines c s key j (rpush_entry c values)
          (record { value = list (ListInner.full l); expires_ms = 0 }) (length l) f
          (push-EntryRefines c f l (length l) refl) (rw (view-none Z S c, view-full Z S c l) refl))

  -- LPOP takes up to `count` values off the front of the list that the key stands for and returns
  -- them in order, and changes no other key.
  pub lpop-Refines :
      (count : ℕ) → Refines c s key (lpop c s key count) (λ l. (drop count l, ok (take count l))) j
  unfolding lpop lpop_entry
  lpop-Refines count =
      pop_command c s key j
        (λ l. let (out, left) = pop_fronts (min count (length l)) l in (left, ok out))
        (λ l. (drop count l, ok (take count l))) [] (lpop_list count)
        (rw (take-nil {A = Bytes} count, drop-nil {A = Bytes} count) refl)

  -- RPOP takes up to `count` values off the end of the list that the key stands for and returns
  -- them, the last one first, and changes no other key.
  pub rpop-Refines :
      (count : ℕ)
      → Refines c s key
          (rpop c s key count)
          (λ l. (reverse (drop count (reverse l)), ok (take count (reverse l))))
          j
  unfolding rpop rpop_entry
  rpop-Refines count =
      pop_command c s key j
        (λ l. let (out, left) = pop_backs (min count (length l)) l in (left, ok out))
        (λ l. (reverse (drop count (reverse l)), ok (take count (reverse l)))) [] (rpop_list count)
        (rw (take-nil {A = Bytes} count, drop-nil {A = Bytes} count) refl)

  pub ltrim-Refines :
      (start stop : ℤ)
      → Refines c s key (ltrim c s key start stop) (λ l. (trim l start stop, ok tt)) j
  unfolding ltrim ltrim_entry
  ltrim-Refines start stop =
      pop_command c s key j (λ l. (trim l start stop, ok tt)) (λ l. (trim l start stop, ok tt)) tt
        (λ l. refl) (rw (trim_nil start stop) refl)

  pub lrem-Refines :
      (count : ℤ) (value : Bytes)
      → Refines c s key
          (lrem c s key count value)
          (λ l. ((remove_count count value l).0, ok (remove_count count value l).1))
          j
  unfolding lrem lrem_entry
  lrem-Refines count value =
      let f : List Bytes → List Bytes × Result ℕ =
        λ l. ((remove_count count value l).0, ok (remove_count count value l).1) in
      pop_command c s key j f f 0 (λ l. refl) (rw (remove_count_nil count value) refl)
