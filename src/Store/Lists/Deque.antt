-- ===== src/Store/Lists/Deque.antt =====
-- The loops of src/storage/list.rs over a `VecDeque`, whose front is the head of the list.
pub mod Loops
use flash_db.Base.{
  ℕ, zero, suc, ◌+◌, ◌-◌, ◌%◌, ◌^◌, Bool, true, false, Option, none, some, List, [], ◌∷◌, ◌++◌,
  Bytes, length, take, drop, min, ltb, leb, ◌==◌, ◌=ₛ◌, ◌&&◌, ◌||◌, if◌then◌else◌,
}
use flash_db.Base.Int.{ℤ, pos, negsuc}

abbrev pub Deque : Type 0
Deque = List Bytes

unfoldable pub push_fronts : List Bytes → Deque → Deque
push_fronts [] l = l
push_fronts (v ∷ vs) l = push_fronts vs (v ∷ l)

unfoldable pub push_backs : List Bytes → Deque → Deque
push_backs [] l = l
push_backs (v ∷ vs) l = push_backs vs (l ++ v ∷ [])

unfoldable pub pop_front : Deque → Option (Bytes × Deque)
pop_front [] = none
pop_front (v ∷ l) = some (v, l)

unfoldable pub pop_back : Deque → Option (Bytes × Deque)
pop_back [] = none
pop_back (v ∷ l) = elim (pop_back l) [ none ↦ some (v, []) | some (w, l') ↦ some (w, v ∷ l') ]

-- `for _ in 0..n`: what is popped, in that order, and what is left.
unfoldable pub pop_fronts : ℕ → Deque → List Bytes × Deque
pop_fronts zero l = ([], l)
pop_fronts (suc n) [] = pop_fronts n []
pop_fronts (suc n) (v ∷ l) = let (out, left) = pop_fronts n l in (v ∷ out, left)

unfoldable pub pop_backs : ℕ → Deque → List Bytes × Deque
pop_backs zero l = ([], l)
pop_backs (suc n) l = elim (pop_back l) [
  | none ↦ pop_backs n l
  | some (w, l') ↦ let (out, left) = pop_backs n l' in (w ∷ out, left)
]

-- The start and the stop of LRANGE and LTRIM as `usize`; -1 wraps.
unfoldable pub clamp_start : ℕ → ℤ → ℕ
clamp_start len (pos n) = min n len
clamp_start len (negsuc n) = len - suc n

unfoldable pub clamp_stop : ℕ → ℤ → ℕ
clamp_stop len (pos n) = if len == 0 then 2 ^ 64 - 1 else min n (len - 1)
clamp_stop len (negsuc n) = len - suc n

-- The list that LRANGE returns: `skip(s).take(e_idx - s + 1)`, whose sum wraps at 2 ^ 64.
unfoldable pub range : Deque → ℤ → ℤ → List Bytes
unfolding clamp_start clamp_stop
range l start stop =
    let s = clamp_start (length l) start in
    let e = clamp_stop (length l) stop in
    if ltb e s then [] else take ((e - s + 1) % 2 ^ 64) (drop s l)

-- The list that LTRIM leaves: `drain(..s)`, then `truncate`.
unfoldable pub trim : Deque → ℤ → ℤ → Deque
unfolding clamp_start clamp_stop
trim l start stop =
    let s = clamp_start (length l) start in
    let e = clamp_stop (length l) stop in
    let rest = drop s l in
    if ltb e s || leb (length l) s then [] else take (min (e - s + 1) (length rest)) rest

-- LREM with a positive count: what is left, and how many were removed.
unfoldable pub remove_forward : ℕ → Bytes → Deque → Deque × ℕ
remove_forward limit value [] = ([], 0)
remove_forward zero value (v ∷ l) = (v ∷ l, 0)
remove_forward (suc limit) value (v ∷ l) =
    let (kept, n) = remove_forward (if v =ₛ value then limit else suc limit) value l in
    if v =ₛ value then (kept, suc n) else (v ∷ kept, n)

-- LREM with a negative count, which goes from the end of the list to its front.
unfoldable pub remove_backward : ℕ → Bytes → Deque → Deque × ℕ
remove_backward limit value [] = ([], 0)
remove_backward limit value (v ∷ l) =
    let (kept, n) = remove_backward limit value l in
    if ltb n limit && (v =ₛ value) then (kept, suc n) else (v ∷ kept, n)

-- `retain`, with its count of what it removes.
unfoldable pub remove_all : Bytes → Deque → Deque × ℕ
remove_all value [] = ([], 0)
remove_all value (v ∷ l) =
    let (kept, n) = remove_all value l in if v =ₛ value then (kept, suc n) else (v ∷ kept, n)

unfoldable pub position : Bytes → Deque → Option ℕ
position value [] = none
position value (v ∷ l) =
    if v =ₛ value then some 0 else elim (position value l) [ none ↦ none | some i ↦ some (suc i) ]

unfoldable pub insert_at : ℕ → Bytes → Deque → Deque
insert_at zero value l = value ∷ l
insert_at (suc i) value [] = value ∷ []
insert_at (suc i) value (v ∷ l) = v ∷ insert_at i value l

unfoldable pub enumerate : ℕ → Deque → List (ℕ × Bytes)
enumerate i [] = []
enumerate i (v ∷ l) = (i, v) ∷ enumerate (suc i) l

-- Both loops of LPOS, over the positions in the order in which they are looked at; `count` 0 is no
-- limit, and the loop stops once `count` positions are found.
unfoldable pub lpos_loop : Bytes → ℕ → ℕ → List (ℕ × Bytes) → ℕ → List ℕ → List ℕ
lpos_loop value skip count [] found results = results
lpos_loop value skip count ((i, v) ∷ rest) found results =
    let results' = results ++ i ∷ [] in
    let next = lpos_loop value skip count rest found results in
    let skipped = lpos_loop value skip count rest (found + 1) results in
    let pushed = lpos_loop value skip count rest (found + 1) results' in
    if v =ₛ value
    then (if leb skip found
        then (if ltb 0 count && leb count (length results') then results' else pushed)
        else skipped)
    else next
