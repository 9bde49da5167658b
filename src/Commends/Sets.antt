-- ===== src/Commends/Sets.antt =====
-- src/commends/set.rs: the handlers of the set commands.
pub mod Written
pub mod Members
pub mod Framing
mod Tests
use flash_db.Base.{
  ℕ, Bool, true, false, Option, none, some, List, [], ◌∷◌, ◌++◌, ◌⊎◌, inl, inr, Bytes, codes,
  length, take, drop, ltb, if◌then◌else◌,
}
use flash_db.Base.Int.{ℤ, pos}
use flash_db.Resp.{
  write_integer, write_boolean, write_bulk, write_nil, write_array, write_array_header,
  write_wrong_args, write_wrong_type, write_err,
}
use flash_db.Resp.Number.Parse.{parse_i64}
use flash_db.Util.{glob_match}
use flash_db.Map.{get_ref}
use flash_db.Value.{StoreValue, Clock, is_expired, as_set}
use flash_db.Value.Collections.{SetInner}
use flash_db.Value.Collections.Set.{iter}
use flash_db.Store.{Store, Result}
use flash_db.Store.Sets
use flash_db.Store.Sets.Combine
use flash_db.Store.Sets.Combine.{retain}
use flash_db.Commends.{
  as_i64, parse_usize, eq_ignore_ascii_case, wt, store_ok, parse_int, with_options,
}

-- `resp::write_integer(out, n as i64)`
abbrev pub write_count : Bytes → ℕ → Bytes
write_count out n = write_integer out (as_i64 n)

unfoldable pub write_flags : Bytes → List Bool → Bytes
write_flags out [] = out
write_flags out (r ∷ results) = write_flags (write_integer out (if r then pos 1 else pos 0)) results

-- One member without a count, or nil; an array with a count.
unfoldable pub write_first : Bytes → List Bytes → Bytes
write_first out [] = write_nil out
write_first out (item ∷ items) = write_bulk out item

-- `parse_int!` in an option loop.
unfoldable pub with_value : {A : Type 0} → Option ℕ → (ℕ → Bytes ⊎ A) → Bytes ⊎ A
with_value none next = inl (codes "value is not an integer")
with_value (some n) next = next n

-- The options of SINTERCARD: the limit, or the text of the error.
unfoldable pub limit_loop : ℕ → List Bytes → Bytes ⊎ ℕ
limit_loop limit [] = inr limit
limit_loop limit (option ∷ []) = inl (codes "syntax error")
limit_loop limit (option ∷ value ∷ rest) =
    if eq_ignore_ascii_case option (codes "LIMIT")
    then with_value (parse_usize value) (λ n. limit_loop n rest)
    else inl (codes "syntax error")

-- The options of SSCAN: the pattern, or the text of the error.
unfoldable pub pattern_loop : Option Bytes → List Bytes → Bytes ⊎ Option Bytes
pattern_loop pattern [] = inr pattern
pattern_loop pattern (option ∷ []) = inl (codes "syntax error")
pattern_loop pattern (option ∷ value ∷ rest) =
    let is_match = eq_ignore_ascii_case option (codes "MATCH") in
    let later = pattern_loop (if is_match then some value else pattern) rest in
    if is_match
    then later
    else if eq_ignore_ascii_case option (codes "COUNT")
    then with_value (parse_usize value) (λ n. later)
    else inl (codes "syntax error")

-- `pattern.is_none_or(|p| glob_match(p, m))`
unfoldable pub matched : Option Bytes → Bytes → Bool
matched none m = true
matched (some p) m = glob_match p m

-- The literal, the cursor and the array of the members; `write_array` has the loop of `write_bulk`.
unfoldable pub write_page : Bytes → List Bytes → Bytes
write_page out members = write_array (write_bulk (out ++ codes "*2\r\n") (codes "0")) members

unfoldable pub scan_members : Option Bytes → Option SetInner → Bytes → Bytes
scan_members pattern none out = write_wrong_type out
scan_members pattern (some x) out = write_page out (retain (matched pattern) (iter x))

module _ {Z S : Type 0} where
  -- The reply to what a store command answers, under `wt!` and under `store_ok!`.
  unfoldable pub answer :
      {A : Type 0} → Bytes → Store Z S × Result A → (A → Bytes) → Store Z S × Bytes
  answer out x reply = (x.0, wt out x.1 reply)

  unfoldable pub sadd : Clock → Store Z S → List Bytes → Bytes → Store Z S × Bytes
  sadd c s (name ∷ key ∷ m ∷ members) out =
      answer out (Sets.sadd c s key (m ∷ members)) (write_count out)
  sadd c s _ out = (s, write_wrong_args out (codes "sadd"))

  unfoldable pub srem : Clock → Store Z S → List Bytes → Bytes → Store Z S × Bytes
  srem c s (name ∷ key ∷ m ∷ members) out =
      answer out (Sets.srem c s key (m ∷ members)) (write_count out)
  srem c s _ out = (s, write_wrong_args out (codes "srem"))

  unfoldable pub sismember : Clock → Store Z S → List Bytes → Bytes → Store Z S × Bytes
  sismember c s (name ∷ key ∷ member ∷ []) out =
      (s, wt out (Sets.sismember c s key member) (write_boolean out))
  sismember c s _ out = (s, write_wrong_args out (codes "sismember"))

  unfoldable pub smismember : Clock → Store Z S → List Bytes → Bytes → Store Z S × Bytes
  smismember c s (name ∷ key ∷ m ∷ members) out = (
    s,
    wt out (Sets.smismember c s key (m ∷ members))
        (λ results. write_flags (write_array_header out (length results)) results),
  )
  smismember c s _ out = (s, write_wrong_args out (codes "smismember"))

  unfoldable pub smembers : Clock → Store Z S → List Bytes → Bytes → Store Z S × Bytes
  smembers c s (name ∷ key ∷ []) out = (s, wt out (Sets.smembers c s key) (write_array out))
  smembers c s _ out = (s, write_wrong_args out (codes "smembers"))

  unfoldable pub scard : Clock → Store Z S → List Bytes → Bytes → Store Z S × Bytes
  scard c s (name ∷ key ∷ []) out = (s, wt out (Sets.scard c s key) (write_count out))
  scard c s _ out = (s, write_wrong_args out (codes "scard"))

  unfoldable pub spop : Clock → Store Z S → List Bytes → Bytes → Store Z S × Bytes
  spop c s (name ∷ key ∷ []) out = answer out (Sets.spop c s key 1) (write_first out)
  spop c s (name ∷ key ∷ count ∷ []) out =
      parse_int s out (parse_usize count) (λ n. answer out (Sets.spop c s key n) (write_array out))
  spop c s _ out = (s, write_wrong_args out (codes "spop"))

  unfoldable pub srandmember : Clock → Store Z S → List Bytes → Bytes → Store Z S × Bytes
  srandmember c s (name ∷ key ∷ []) out =
      (s, wt out (Sets.srandmember c s key (pos 1)) (write_first out))
  srandmember c s (name ∷ key ∷ count ∷ []) out =
      parse_int s out (parse_i64 count)
        (λ n. (s, wt out (Sets.srandmember c s key n) (write_array out)))
  srandmember c s _ out = (s, write_wrong_args out (codes "srandmember"))

  unfoldable pub smove : Clock → Store Z S → List Bytes → Bytes → Store Z S × Bytes
  smove c s (name ∷ src ∷ dst ∷ member ∷ []) out =
      answer out (Sets.smove c s src dst member) (write_boolean out)
  smove c s _ out = (s, write_wrong_args out (codes "smove"))

  unfoldable pub sunion : Clock → Store Z S → List Bytes → Bytes → Store Z S × Bytes
  sunion c s (name ∷ k ∷ keys) out = (s, wt out (Combine.sunion c s (k ∷ keys)) (write_array out))
  sunion c s _ out = (s, write_wrong_args out (codes "sunion"))

  unfoldable pub sinter : Clock → Store Z S → List Bytes → Bytes → Store Z S × Bytes
  sinter c s (name ∷ k ∷ keys) out = (s, wt out (Combine.sinter c s (k ∷ keys)) (write_array out))
  sinter c s _ out = (s, write_wrong_args out (codes "sinter"))

  unfoldable pub sdiff : Clock → Store Z S → List Bytes → Bytes → Store Z S × Bytes
  sdiff c s (name ∷ k ∷ keys) out = (s, wt out (Combine.sdiff c s (k ∷ keys)) (write_array out))
  sdiff c s _ out = (s, write_wrong_args out (codes "sdiff"))

  unfoldable pub answer_stored : Bytes → Store Z S × Result ℕ → Store Z S × Bytes
  answer_stored out x = (x.0, store_ok out x.1 (write_count out))

  unfoldable pub sunionstore : Clock → Store Z S → List Bytes → Bytes → Store Z S × Bytes
  sunionstore c s (name ∷ dst ∷ k ∷ keys) out =
      answer_stored out (Combine.sunionstore c s dst (k ∷ keys))
  sunionstore c s _ out = (s, write_wrong_args out (codes "sunionstore"))

  unfoldable pub sinterstore : Clock → Store Z S → List Bytes → Bytes → Store Z S × Bytes
  sinterstore c s (name ∷ dst ∷ k ∷ keys) out =
      answer_stored out (Combine.sinterstore c s dst (k ∷ keys))
  sinterstore c s _ out = (s, write_wrong_args out (codes "sinterstore"))

  unfoldable pub sdiffstore : Clock → Store Z S → List Bytes → Bytes → Store Z S × Bytes
  sdiffstore c s (name ∷ dst ∷ k ∷ keys) out =
      answer_stored out (Combine.sdiffstore c s dst (k ∷ keys))
  sdiffstore c s _ out = (s, write_wrong_args out (codes "sdiffstore"))

  unfoldable pub sintercard : Clock → Store Z S → List Bytes → Bytes → Store Z S × Bytes
  sintercard c s (name ∷ numkeys ∷ rest) out = parse_int s out (parse_usize numkeys) (λ n.
      if ltb (length rest) n
      then (s, write_wrong_args out (codes "sintercard"))
      else with_options s out (limit_loop 0 (drop n rest)) (λ limit.
        (s, store_ok out (Combine.sintercard c s (take n rest) limit) (write_count out))))
  sintercard c s _ out = (s, write_wrong_args out (codes "sintercard"))

  -- The last `match` of SSCAN.
  unfoldable pub scan_entry : Clock → Option Bytes → StoreValue Z S → Bytes → Bytes
  scan_entry c pattern e out =
      if is_expired c e then write_page out [] else scan_members pattern (as_set e.value) out

  unfoldable pub scan_reply : Clock → Option Bytes → Option (StoreValue Z S) → Bytes → Bytes
  scan_reply c pattern none out = write_page out []
  scan_reply c pattern (some e) out = scan_entry c pattern e out

  unfoldable pub sscan : Clock → Store Z S → List Bytes → Bytes → Store Z S × Bytes
  sscan c s (name ∷ key ∷ cursor ∷ rest) out = parse_int s out (parse_usize cursor) (λ n.
      with_options s out (pattern_loop none rest)
        (λ pattern. (s, scan_reply c pattern (get_ref s.contents key) out)))
  sscan c s _ out = (s, write_wrong_args out (codes "sscan"))
