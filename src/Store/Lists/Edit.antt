-- ===== src/Store/Lists/Edit.antt =====
-- src/storage/list.rs, continued: the commands that edit a list in place, and LMOVE.
use flash_db.Base.{
  ℕ, zero, suc, ◌+◌, ◌-◌, Bool, true, Option, none, some, List, [], ◌∷◌, ◌++◌, reverse, Bytes,
  length, set, take, drop, min, ltb, ◌==◌, ◌=ₛ◌, if◌then◌else◌,
}
use flash_db.Base.Int.{ℤ, pos, negsuc}
use flash_db.Map.{CustomMap, update_with}
use flash_db.Value.{StoreValue, Clock, is_expired}
use flash_db.Store.{Store, Result, ok, err, no_such_key, index_out_of_range}
use flash_db.Store.Lists.{fresh, on_list, read_list}
use flash_db.Store.Update.{modify, put}
use flash_db.Store.Lists.Deque.{
  pop_front, pop_back, trim, remove_forward, remove_backward, remove_all, position, insert_at,
  lpos_loop, enumerate,
}
use flash_db.Store.Lists.Index.{normalize_index}

-- `pop_front` or `pop_back`: the value and what is left.
unfoldable pub pop_end : Bool → List Bytes → List Bytes × Option Bytes
unfolding pop_front pop_back
pop_end left l = elim (if left then pop_front l else pop_back l) [
  | none ↦ (l, none)
  | some (v, l') ↦ (l', some v)
]

unfoldable pub push_end : Bool → Bytes → List Bytes → List Bytes
push_end left v l = if left then v ∷ l else l ++ v ∷ []

-- LREM by the sign of its count.
unfoldable pub remove_count : ℤ → Bytes → List Bytes → List Bytes × ℕ
remove_count (pos zero) value l = remove_all value l
remove_count (pos (suc n)) value l = remove_forward (suc n) value l
remove_count (negsuc n) value l = remove_backward (suc n) value l

-- The positions that LPOS looks at, and how many matches it skips.
unfoldable pub lpos_positions : ℤ → ℕ → List Bytes → List (ℕ × Bytes)
lpos_positions (pos n) maxlen l =
    let max_ = if maxlen == 0 then length l else min maxlen (length l) in take max_ (enumerate 0 l)
lpos_positions (negsuc n) maxlen l =
    let max_ = if maxlen == 0 then length l else min maxlen (length l) in
    let start = if ltb max_ (length l) then length l - max_ else 0 in
    reverse (drop start (enumerate 0 l))

unfoldable pub lpos_skip : ℤ → ℕ
lpos_skip (pos n) = n - 1
lpos_skip (negsuc n) = n

module _ {Z S : Type 0} where
  unfoldable pub lset_entry : Clock → ℤ → Bytes → StoreValue Z S → StoreValue Z S × Result Bool
  lset_entry c index value v =
      if is_expired c v
      then (v, err no_such_key)
      else on_list
          (λ l. elim (normalize_index index (length l)) [
            | none ↦ (l, err index_out_of_range)
            | some i ↦ (set l i value, ok true)
          ])
          v

  unfoldable pub lset : Clock → Store Z S → Bytes → ℤ → Bytes → Store Z S × Result Bool
  lset c s key index value =
      let (m, result) = update_with s.contents key (lset_entry c index value) in
      (record s { contents = m }, elim result [ none ↦ err no_such_key | some r ↦ r ])

  unfoldable pub ltrim_entry : Clock → ℤ → ℤ → StoreValue Z S → StoreValue Z S × Result Unit
  ltrim_entry c start stop v =
      if is_expired c v then (v, ok tt) else on_list (λ l. (trim l start stop, ok tt)) v

  unfoldable pub ltrim : Clock → Store Z S → Bytes → ℤ → ℤ → Store Z S × Result Unit
  ltrim c s key start stop = modify s key (ltrim_entry c start stop) tt

  unfoldable pub lrem_entry : Clock → ℤ → Bytes → StoreValue Z S → StoreValue Z S × Result ℕ
  lrem_entry c count value v =
      if is_expired c v
      then (v, ok 0)
      else on_list (λ l. let (left, n) = remove_count count value l in (left, ok n)) v

  unfoldable pub lrem : Clock → Store Z S → Bytes → ℤ → Bytes → Store Z S × Result ℕ
  lrem c s key count value = modify s key (lrem_entry c count value) 0

  unfoldable pub linsert_entry :
      Clock → Bool → Bytes → Bytes → StoreValue Z S → StoreValue Z S × Result ℤ
  linsert_entry c before pivot value v =
      if is_expired c v
      then (v, ok (negsuc 0))
      else on_list
          (λ l. elim (position pivot l) [
            | none ↦ (l, ok (negsuc 0))
            | some i ↦
                let l' = insert_at (if before then i else i + 1) value l in
                (l', ok (pos (length l')))
          ])
          v

  unfoldable pub linsert : Clock → Store Z S → Bytes → Bool → Bytes → Bytes → Store Z S × Result ℤ
  linsert c s key before pivot value = modify s key (linsert_entry c before pivot value) (pos 0)

  unfoldable pub lpos : Clock → Store Z S → Bytes → Bytes → ℤ → ℕ → ℕ → Result (List ℕ)
  lpos c s key value rank count maxlen =
      read_list c s key []
        (λ l. lpos_loop value (lpos_skip rank) count (lpos_positions rank maxlen l) 0 [])

  unfoldable pub pop_entry : Clock → Bool → StoreValue Z S → StoreValue Z S × Result (Option Bytes)
  pop_entry c left v =
      if is_expired c v
      then (v, ok none)
      else on_list (λ l. let (l', popped) = pop_end left l in (l', ok popped)) v

  -- The push onto the same key does not look at the expiry again.
  unfoldable pub push_same_entry : Bool → Bytes → StoreValue Z S → StoreValue Z S × Result Unit
  push_same_entry left value v = on_list (λ l. (push_end left value l, ok tt)) v

  unfoldable pub push_entry : Clock → Bool → Bytes → StoreValue Z S → StoreValue Z S × Result Unit
  push_entry c left value v =
      if is_expired c v then (fresh (value ∷ []), ok tt) else push_same_entry left value v

  -- The `match` on what the push of `lmove` returns, at the map that it leaves.
  unfoldable pub lmove_pushed :
      Store Z S
      → CustomMap (StoreValue Z S)
      → Bytes
      → Bytes
      → Option (Result Unit)
      → Store Z S × Result (Option Bytes)
  lmove_pushed s m dst value (some (ok u)) = (record s { contents = m }, ok (some value))
  lmove_pushed s m dst value (some (err e)) = (record s { contents = m }, err e)
  lmove_pushed s m dst value none = (put s dst (fresh (value ∷ [])), ok (some value))

  -- The second half of `lmove`, with the value that was popped.
  unfoldable pub lmove_push :
      Clock → Store Z S → Bytes → Bytes → Bool → Bytes → Store Z S × Result (Option Bytes)
  lmove_push c s src dst left_dst value =
      let entry =
        if src =ₛ dst then push_same_entry left_dst value else push_entry c left_dst value in
      let (m, pushed) = update_with s.contents dst entry in lmove_pushed s m dst value pushed

  unfoldable pub lmove_popped :
      Clock
      → Store Z S
      → Bytes
      → Bytes
      → Bool
      → Option (Result (Option Bytes))
      → Store Z S × Result (Option Bytes)
  lmove_popped c s src dst left_dst none = (s, ok none)
  lmove_popped c s src dst left_dst (some (err e)) = (s, err e)
  lmove_popped c s src dst left_dst (some (ok none)) = (s, ok none)
  lmove_popped c s src dst left_dst (some (ok (some value))) = lmove_push c s src dst left_dst value

  unfoldable pub lmove :
      Clock → Store Z S → Bytes → Bytes → Bool → Bool → Store Z S × Result (Option Bytes)
  lmove c s src dst left_src left_dst =
      let (m, popped) = update_with s.contents src (pop_entry c left_src) in
      lmove_popped c (record s { contents = m }) src dst left_dst popped
