-- ===== src/Value/Collections/Set.antt =====
-- `SetInner` of src/storage/value/collections.rs: a set is a sorted vector of integers while every member
-- is the text of one, then a vector of strings, and a `HashSet` beyond 64 members.
pub mod Members
pub mod Integers
pub mod Strings
pub mod Laws
pub mod Insertion
pub mod Removal
mod Tests
use flash_db.Base.{
  ℕ, zero, suc, ◌+◌, ◌/◌, Bool, true, false, ◌||◌, Option, none, some, List, [], ◌∷◌, ◌++◌, map,
  Bytes, length, take, drop, ltb, leb, ◌==◌, ◌=ₛ◌, if◌then◌else◌,
}
use flash_db.Base.Int.{ℤ, ltb_ℤ, eqb_ℤ}
use flash_db.Resp.Number.Parse.{parse_i64}
use flash_db.Resp.Replies.{signed}
use flash_db.Value.Collections.{SetInner, compact_threshold}

-- The result of the standard library's `binary_search`: where the element is, or where it goes.
pub data Search : Type 0 where
  found missing : ℕ → Search

abbrev pub shifted : Search → Search
shifted (found i) = found (suc i)
shifted (missing i) = missing (suc i)

-- On an ascending vector: the only place of `n`, or the only one that keeps the order.
unfoldable pub binary_search : ℤ → List ℤ → Search
binary_search n [] = missing 0
binary_search n (x ∷ v) =
    let rest = shifted (binary_search n v) in
    if eqb_ℤ x n then found 0 else if ltb_ℤ n x then missing 0 else rest

unfoldable pub canonical_i64 : Bytes → Option ℤ
canonical_i64 value = elim (parse_i64 value) [
  | none ↦ none
  | some n ↦ if signed n =ₛ value then some n else none
]

-- `v.iter().any(|m| m == member)`, and `contains` of the standard library.
unfoldable pub member_of : Bytes → List Bytes → Bool
member_of m [] = false
member_of m (x ∷ v) = (x =ₛ m) || member_of m v

-- `insert` of a `HashSet`
unfoldable pub set_insert : Bytes → List Bytes → List Bytes
set_insert m s = if member_of m s then s else s ++ m ∷ []

unfoldable pub set_remove : Bytes → List Bytes → List Bytes
set_remove m [] = []
set_remove m (x ∷ s) = let rest = set_remove m s in if x =ₛ m then s else x ∷ rest

unfoldable pub new : SetInner
new = SetInner.integers []

-- `promote_set`, and its loop behind what is inserted so far.
unfoldable pub promote_loop : List Bytes → List Bytes → List Bytes
promote_loop [] s = s
promote_loop (x ∷ v) s = promote_loop v (set_insert x s)

unfoldable pub promote_set : List Bytes → SetInner
promote_set v = SetInner.full (promote_loop v [])

unfoldable pub demote_set : List Bytes → SetInner
demote_set s =
    if ltb (compact_threshold / 2) (length s) then SetInner.full s else SetInner.compact s

-- `v.insert(pos, n)` and `v.remove(pos)`
abbrev pub insert_at : ℕ → ℤ → List ℤ → List ℤ
insert_at pos n v = take pos v ++ n ∷ drop pos v

abbrev pub remove_at : ℕ → List ℤ → List ℤ
remove_at pos v = take pos v ++ drop (suc pos) v

unfoldable pub pushed_set : List Bytes → SetInner
pushed_set v = if ltb compact_threshold (length v) then promote_set v else SetInner.compact v

-- The number that is no integer's text turns the integers into strings.
unfoldable pub insert_integer : List ℤ → Bytes → Option ℤ → SetInner × Bool
insert_integer v member none = (SetInner.compact (map signed v ++ member ∷ []), true)
insert_integer v member (some n) = elim (binary_search n v) [
  | found pos ↦ (SetInner.integers v, false)
  | missing pos ↦ (SetInner.integers (insert_at pos n v), true)
]

unfoldable pub insert_small : SetInner → Bytes → SetInner × Bool
insert_small (SetInner.integers v) member = insert_integer v member (canonical_i64 member)
insert_small (SetInner.compact v) member =
    if member_of member v
    then (SetInner.compact v, false)
    else (pushed_set (v ++ member ∷ []), true)
insert_small (SetInner.full s) member =
    (SetInner.full (set_insert member s), if member_of member s then false else true)

unfoldable pub insert : SetInner → Bytes → SetInner × Bool
unfolding insert_small
insert s member = insert_small s member

-- `from_strings`
unfoldable pub insert_all : List Bytes → SetInner → SetInner
insert_all [] s = s
insert_all (x ∷ values) s = insert_all values (insert s x).0

unfoldable pub from_strings : List Bytes → SetInner
from_strings values = insert_all values new

unfoldable pub position : Bytes → List Bytes → Option ℕ
position m [] = none
position m (x ∷ v) =
    let rest : Option ℕ = elim (position m v) [ none ↦ none | some i ↦ some (suc i) ] in
    if x =ₛ m then some 0 else rest

-- The last string of a vector and what stands before it.
unfoldable pub split_last : List Bytes → Option (Bytes × List Bytes)
split_last [] = none
split_last (x ∷ v) = elim (split_last v) [ none ↦ some (x, []) | some (l, w) ↦ some (l, x ∷ w) ]

-- `swap_remove`: the last string goes to the place of the one that is removed.
unfoldable pub swap_remove : ℕ → List Bytes → List Bytes
swap_remove i [] = []
swap_remove zero (x ∷ v) = elim (split_last v) [ none ↦ [] | some (l, w) ↦ l ∷ w ]
swap_remove (suc i) (x ∷ v) = x ∷ swap_remove i v

unfoldable pub remove_integer : List ℤ → Option ℤ → SetInner × Bool
remove_integer v none = (SetInner.integers v, false)
remove_integer v (some n) = elim (binary_search n v) [
  | found pos ↦ (SetInner.integers (remove_at pos v), true)
  | missing pos ↦ (SetInner.integers v, false)
]

unfoldable pub remove : SetInner → Bytes → SetInner × Bool
remove (SetInner.integers v) member = remove_integer v (canonical_i64 member)
remove (SetInner.compact v) member = elim (position member v) [
  | some pos ↦ (SetInner.compact (swap_remove pos v), true)
  | none ↦ (SetInner.compact v, false)
]
remove (SetInner.full s) member = (demote_set (set_remove member s), member_of member s)

unfoldable pub contains : SetInner → Bytes → Bool
contains (SetInner.integers v) member = elim (canonical_i64 member) [
  | none ↦ false
  | some n ↦ elim (binary_search n v) [ found pos ↦ true | missing pos ↦ false ]
]
contains (SetInner.compact v) member = member_of member v
contains (SetInner.full s) member = member_of member s

unfoldable pub len : SetInner → ℕ
len (SetInner.integers v) = length v
len (SetInner.compact v) = length v
len (SetInner.full s) = length s

unfoldable pub is_empty : SetInner → Bool
is_empty s = len s == 0

-- What the iterator gives, as text.
unfoldable pub iter : SetInner → List Bytes
iter (SetInner.integers v) = map signed v
iter (SetInner.compact v) = v
iter (SetInner.full s) = s
