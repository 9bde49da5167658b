-- ===== src/Store/Sets.antt =====
-- src/storage/set.rs: the set commands.
pub mod Combine
pub mod Changes
pub mod Commands
pub mod Algebra
pub mod Move
mod Tests
use flash_db.Base.{
  ℕ, zero, suc, ◌+◌, ◌-◌, ◌*◌, ◌%◌, ◌^◌, Bool, true, false, not, Option, none, some, List, [], ◌∷◌,
  ◌++◌, map, Bytes, length, get_elem?, take, replicate, min, ltb, ◌==◌, if◌then◌else◌,
}
use flash_db.Base.Int.{ℤ, pos, negsuc}
use flash_db.Map.{read_consistent}
use flash_db.Value.{FyroDb, set, StoreValue, Clock, is_expired, as_set}
use flash_db.Value.Collections.{SetInner}
use flash_db.Value.Collections.Set.{
  new, insert, remove, contains, len, iter, is_empty, set_insert, from_strings, member_of,
}
use flash_db.Store.{Store, Result, ok, err, wrong_type}
use flash_db.Store.Update.{or_absent, modify, put, upsert, on_entry, read_as}

-- The loops over the members that count what `insert` and `remove` return.
unfoldable pub insert_loop : List Bytes → SetInner → ℕ → SetInner × ℕ
insert_loop [] s n = (s, n)
insert_loop (m ∷ members) s n =
    let (s', added) = insert s m in insert_loop members s' (if added then n + 1 else n)

unfoldable pub remove_loop : List Bytes → SetInner → ℕ → SetInner × ℕ
remove_loop [] s n = (s, n)
remove_loop (m ∷ members) s n =
    let (s', removed) = remove s m in remove_loop members s' (if removed then n + 1 else n)

-- The `for` of `spop`: the first member of the iterator is removed, `n` times.
unfoldable pub pop_loop : ℕ → SetInner → List Bytes → SetInner × List Bytes
pop_loop zero s out = (s, out)
pop_loop (suc n) s out = elim (iter s) [
  | [] ↦ pop_loop n s out
  | m ∷ _ ↦ pop_loop n (remove s m).0 (out ++ m ∷ [])
]

-- The members at pseudo-random places; a place out of range, which there is none of, is left out.
unfoldable pub random_loop : ℕ → ℕ → ℕ → List Bytes → List Bytes
random_loop zero i seed members = []
random_loop (suc n) i seed members =
    let idx = (seed + i) % 2 ^ 64 * 0x9e3779b97f4a7c15 % 2 ^ 64 % length members in
    let rest = random_loop n (i + 1) seed members in
    elim (get_elem? members idx) [ none ↦ rest | some m ↦ m ∷ rest ]

unfoldable pub random_members : Clock → ℤ → List Bytes → List Bytes
random_members c (pos n) members = take (min n (length members)) members
random_members c (negsuc n) members = random_loop (suc n) 0 c.now_ms members

-- What the closures of the commands do to a set.
unfoldable pub added_members : List Bytes → SetInner → SetInner × Result ℕ
added_members members s = let (s', n) = insert_loop members s 0 in (s', ok n)

unfoldable pub removed_members : List Bytes → SetInner → SetInner × Result ℕ
removed_members members s = let (s', n) = remove_loop members s 0 in (s', ok n)

unfoldable pub popped_members : ℕ → SetInner → SetInner × Result (List Bytes)
popped_members count s = let (s', out) = pop_loop (min count (len s)) s [] in (s', ok out)

unfoldable pub take_member : Bytes → SetInner → SetInner × Result Bool
take_member member s = let (s', removed) = remove s member in (s', ok removed)

unfoldable pub give_member : Bytes → SetInner → SetInner × Result (Unit {0})
give_member member s = ((insert s member).0, ok tt)

module _ {Z S : Type 0} where
  -- `FyroDB::Set(Box::new(set))` with no expiry
  abbrev pub fresh_set : SetInner → StoreValue Z S
  fresh_set s = record { value = set s; expires_ms = 0 }

  unfoldable pub sadd_expired : List Bytes → StoreValue Z S → StoreValue Z S × Result ℕ
  sadd_expired members v = let (s, n) = insert_loop members new 0 in (fresh_set s, ok n)

  unfoldable pub sadd_entry : Clock → List Bytes → StoreValue Z S → StoreValue Z S × Result ℕ
  sadd_entry c members = on_entry as_set set c (sadd_expired members) (added_members members)

  unfoldable pub sadd : Clock → Store Z S → Bytes → List Bytes → Store Z S × Result ℕ
  sadd c s key members =
      let (x, n) = insert_loop members new 0 in upsert s key (sadd_entry c members) (fresh_set x) n

  unfoldable pub srem_entry : Clock → List Bytes → StoreValue Z S → StoreValue Z S × Result ℕ
  srem_entry c members = on_entry as_set set c (λ v. (v, ok 0)) (removed_members members)

  unfoldable pub srem : Clock → Store Z S → Bytes → List Bytes → Store Z S × Result ℕ
  srem c s key members = modify s key (srem_entry c members) 0

  unfoldable pub sismember : Clock → Store Z S → Bytes → Bytes → Result Bool
  sismember c s key member = read_as as_set c s key false (λ x. contains x member)

  unfoldable pub smismember : Clock → Store Z S → Bytes → List Bytes → Result (List Bool)
  smismember c s key members =
      read_as as_set c s key (replicate (length members) false) (λ x. map (contains x) members)

  unfoldable pub smembers_entry : Clock → StoreValue Z S → Result (List Bytes)
  smembers_entry c v =
      if is_expired c v
      then ok []
      else elim (as_set v.value) [ none ↦ err wrong_type | some x ↦ ok (iter x) ]

  unfoldable pub smembers : Clock → Store Z S → Bytes → Result (List Bytes)
  smembers c s key = or_absent [] (read_consistent s.contents key (smembers_entry c))

  unfoldable pub scard : Clock → Store Z S → Bytes → Result ℕ
  scard c s key = read_as as_set c s key 0 len

  unfoldable pub spop : Clock → Store Z S → Bytes → ℕ → Store Z S × Result (List Bytes)
  spop c s key count =
      modify s key (on_entry as_set set c (λ v. (v, ok [])) (popped_members count)) []

  unfoldable pub srandmember : Clock → Store Z S → Bytes → ℤ → Result (List Bytes)
  srandmember c s key count =
      read_as as_set c s key [] (λ x. if is_empty x then [] else random_members c count (iter x))

  unfoldable pub smove_give : Clock → Store Z S → Bytes → Bytes → Store Z S × Result (Unit {0})
  smove_give c s dst member =
      upsert s dst
        (on_entry as_set set c (λ v. (fresh_set (insert new member).0, ok tt)) (give_member member))
        (fresh_set (from_strings (member ∷ []))) tt

  -- What follows the first closure, by its result.
  unfoldable pub smove_taken :
      Clock → Store Z S → Bytes → Bytes → Result Bool → Store Z S × Result Bool
  smove_taken c s dst member (err e) = (s, err e)
  smove_taken c s dst member (ok false) = (s, ok false)
  smove_taken c s dst member (ok true) =
      let (s', given) = smove_give c s dst member in
      (s', elim given [ ok u ↦ ok true | err e ↦ err e ])

  unfoldable pub smove : Clock → Store Z S → Bytes → Bytes → Bytes → Store Z S × Result Bool
  smove c s src dst member =
      let (s', taken) =
        modify s src (on_entry as_set set c (λ v. (v, ok false)) (take_member member)) false in
      smove_taken c s' dst member taken
