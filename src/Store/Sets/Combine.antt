-- ===== src/Store/Sets/Combine.antt =====
-- SUNION, SINTER, SDIFF and their variants of src/storage/set.rs. A `HashSet` is the list of its strings.
use flash_db.Base.{ℕ, Bool, not, none, some, List, [], ◌∷◌, Bytes, length, min, ltb, if◌then◌else◌}
use flash_db.Map.{get_ref}
use flash_db.Value.{Clock, is_expired, as_set}
use flash_db.Value.Collections.{SetInner}
use flash_db.Value.Collections.Set.{iter, contains, promote_loop, from_strings}
use flash_db.Store.{Store, Result, ok, err, wrong_type}
use flash_db.Store.Update.{put, map_ok}
use flash_db.Store.Sets.{fresh_set}

-- `retain`
unfoldable pub retain : (Bytes → Bool) → List Bytes → List Bytes
retain p [] = []
retain p (m ∷ s) = let rest = retain p s in if p m then m ∷ rest else rest

-- What the `match` on a key and its value tells apart.
pub data Operand : Type 0 where
  absent no_set : Operand
  members : SetInner → Operand

module _ {Z S : Type 0} where
  unfoldable pub operand : Clock → Store Z S → Bytes → Operand
  operand c s k = elim (get_ref s.contents k) [
    | none ↦ absent
    | some v ↦
        if is_expired c v
        then absent
        else elim (as_set v.value) [ none ↦ no_set | some x ↦ members x ]
  ]

  unfoldable pub union_loop : Clock → Store Z S → List Bytes → List Bytes → Result (List Bytes)
  union_loop c s [] result = ok result
  union_loop c s (k ∷ keys) result = elim (operand c s k) [
    | absent ↦ union_loop c s keys result
    | no_set ↦ err wrong_type
    | members x ↦ union_loop c s keys (promote_loop (iter x) result)
  ]

  unfoldable pub sunion : Clock → Store Z S → List Bytes → Result (List Bytes)
  sunion c s keys = union_loop c s keys []

  unfoldable pub inter_loop : Clock → Store Z S → List Bytes → List Bytes → Result (List Bytes)
  inter_loop c s [] result = ok result
  inter_loop c s (k ∷ keys) result = elim (operand c s k) [
    | absent ↦ ok []
    | no_set ↦ err wrong_type
    | members x ↦ elim (retain (contains x) result) [
      | [] ↦ ok []
      | m ∷ left ↦ inter_loop c s keys (m ∷ left)
    ]
  ]

  unfoldable pub sinter : Clock → Store Z S → List Bytes → Result (List Bytes)
  sinter c s [] = ok []
  sinter c s (k ∷ keys) = elim (operand c s k) [
    | absent ↦ ok []
    | no_set ↦ err wrong_type
    | members x ↦ inter_loop c s keys (promote_loop (iter x) [])
  ]

  unfoldable pub diff_loop : Clock → Store Z S → List Bytes → List Bytes → Result (List Bytes)
  diff_loop c s [] result = ok result
  diff_loop c s (k ∷ keys) result = elim (operand c s k) [
    | absent ↦ diff_loop c s keys result
    | no_set ↦ err wrong_type
    | members x ↦ diff_loop c s keys (retain (λ m. not (contains x m)) result)
  ]

  unfoldable pub sdiff : Clock → Store Z S → List Bytes → Result (List Bytes)
  sdiff c s [] = ok []
  sdiff c s (k ∷ keys) = elim (operand c s k) [
    | absent ↦ ok []
    | no_set ↦ err wrong_type
    | members x ↦ diff_loop c s keys (promote_loop (iter x) [])
  ]

  -- `self.data.insert(dst, StoreValue::set(s))`, where nothing is stored after an error.
  unfoldable pub store_members : Store Z S → Bytes → Result (List Bytes) → Store Z S × Result ℕ
  store_members s dst (err e) = (s, err e)
  store_members s dst (ok ms) =
      (put s dst (fresh_set (from_strings (promote_loop ms []))), ok (length ms))

  unfoldable pub sunionstore : Clock → Store Z S → Bytes → List Bytes → Store Z S × Result ℕ
  sunionstore c s dst keys = store_members s dst (sunion c s keys)

  unfoldable pub sinterstore : Clock → Store Z S → Bytes → List Bytes → Store Z S × Result ℕ
  sinterstore c s dst keys = store_members s dst (sinter c s keys)

  unfoldable pub sdiffstore : Clock → Store Z S → Bytes → List Bytes → Store Z S × Result ℕ
  sdiffstore c s dst keys = store_members s dst (sdiff c s keys)

  unfoldable pub sintercard : Clock → Store Z S → List Bytes → ℕ → Result ℕ
  sintercard c s keys limit =
      map_ok (λ ms. if ltb 0 limit then min (length ms) limit else length ms) (sinter c s keys)
