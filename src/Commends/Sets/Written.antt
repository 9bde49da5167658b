-- ===== src/Commends/Sets/Written.antt =====
-- The writers and the option loops of src/commends/set.rs.
use flash_db.Base.{
  ℕ, suc, ◌≡◌, refl, sym, ap, Bool, none, some, List, [], ◌∷◌, ◌++◌, append_assoc, append-nil, map,
  Bytes, codes, Option, ◌⊎◌, inl, length, if◌then◌else◌,
}
use flash_db.Base.Int.{pos}
use flash_db.Resp.{write_integer, write_array_header}
use flash_db.Resp.Number.Decimal.{write_usize-eq-decimal}
use flash_db.Resp.Replies.{write_integer-eq-signed, write_bulk-eq-bulk, write_array-eq-command}
use flash_db.Value.Collections.{SetInner}
use flash_db.Value.Collections.Set.{iter}
use flash_db.Store.Sets.Combine.{retain}
use flash_db.Commends.{as_i64, parse_usize, eq_ignore_ascii_case}
use flash_db.Commends.Replies.{
  Leaf, number, text, array, page, encode_leaves, Appends, write_integer-Appends,
  write_bulk-Appends, write_nil-Appends, write_wrong_type-Appends, command-eq-encode_array,
}
use flash_db.Commends.Framing.{if_lem, IsReported}
use flash_db.Commends.Sets.{
  write_count, write_flags, write_first, with_value, limit_loop, pattern_loop, scan_members,
  matched, write_page,
}

flags : List Bool → List Leaf
flags [] = []
flags (r ∷ results) = number (if r then pos 1 else pos 0) ∷ flags results

length-flags : (results : List Bool) → length results ≡ length (flags results)
unfolding flags
length-flags [] = refl
length-flags (r ∷ results) = ap suc (length-flags results)

write_flags-eq-leaves :
    (out : Bytes) (results : List Bool)
    → write_flags out results ≡ out ++ encode_leaves (flags results)
unfolding write_flags flags
write_flags-eq-leaves out [] = rw append-nil
write_flags-eq-leaves out (r ∷ results) =
    let n = if r then pos 1 else pos 0 in
    rw (write_flags-eq-leaves (write_integer out n) results)
      (simp (write_integer-eq-signed, append_assoc))

pub write_flags-Appends :
    (out : Bytes) (results : List Bool)
    → Appends out (write_flags (write_array_header out (length results)) results)
unfolding write_array_header
write_flags-Appends out results = (
  array (flags results),
  rw (write_flags-eq-leaves, write_usize-eq-decimal, sym (length-flags results))
      (simp append_assoc),
  tt,
)

pub write_first-Appends : (out : Bytes) (items : List Bytes) → Appends out (write_first out items)
unfolding write_first
write_first-Appends out [] = write_nil-Appends out
write_first-Appends out (item ∷ items) = write_bulk-Appends out item

pub write_page-Appends : (out : Bytes) (members : List Bytes) → Appends out (write_page out members)
unfolding write_page
write_page-Appends out members = (
  page (text (codes "0")) (map text members),
  rw (write_array-eq-command, write_bulk-eq-bulk, command-eq-encode_array) (simp append_assoc),
  tt,
)

with_value-IsReported :
    {A : Type 0} (read : Option ℕ) (next : ℕ → Bytes ⊎ A)
    → ((n : ℕ) → IsReported (next n))
    → IsReported (with_value read next)
unfolding with_value
with_value-IsReported none next h = refl
with_value-IsReported (some n) next h = h n

pub limit_loop-IsReported :
    (limit : ℕ) (options : List Bytes) → IsReported (limit_loop limit options)
unfolding limit_loop
limit_loop-IsReported limit [] = tt
limit_loop-IsReported limit (option ∷ []) = refl
limit_loop-IsReported limit (option ∷ value ∷ rest) =
    if_lem IsReported (eq_ignore_ascii_case option (codes "LIMIT"))
      (with_value (parse_usize value) (λ n. limit_loop n rest)) (inl (codes "syntax error"))
      (with_value-IsReported (parse_usize value) (λ n. limit_loop n rest)
        (λ n. limit_loop-IsReported n rest))
      refl

pub pattern_loop-IsReported :
    (pattern : Option Bytes) (options : List Bytes) → IsReported (pattern_loop pattern options)
unfolding pattern_loop
pattern_loop-IsReported pattern [] = tt
pattern_loop-IsReported pattern (option ∷ []) = refl
pattern_loop-IsReported pattern (option ∷ value ∷ rest) =
    let is_match = eq_ignore_ascii_case option (codes "MATCH") in
    let left = if is_match then some value else pattern in
    let later = pattern_loop left rest in
    let failed = inl (codes "syntax error") in
    let counted = with_value (parse_usize value) (λ n. later) in
    let is_count = eq_ignore_ascii_case option (codes "COUNT") in
    let fine = pattern_loop-IsReported left rest in
    if_lem IsReported is_match later (if is_count then counted else failed) fine (
      if_lem IsReported is_count counted failed
        (with_value-IsReported (parse_usize value) (λ n. later) (λ n. fine)) refl)

pub scan_members-Appends :
    (pattern : Option Bytes) (x : Option SetInner) (out : Bytes)
    → Appends out (scan_members pattern x out)
unfolding scan_members
scan_members-Appends pattern none out = write_wrong_type-Appends out
scan_members-Appends pattern (some x) out =
    write_page-Appends out (retain (matched pattern) (iter x))

pub count-Appends : (out : Bytes) (n : ℕ) → Appends out (write_count out n)
count-Appends out n = write_integer-Appends out (as_i64 n)
