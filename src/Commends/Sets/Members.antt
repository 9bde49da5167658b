-- ===== src/Commends/Sets/Members.antt =====
-- Each handler of src/commends/set.rs for members appends one whole reply to the output.
use flash_db.Base.{ℕ, refl, none, some, List, [], ◌∷◌, Bytes, codes, Option, length}
use flash_db.Base.Int.{pos}
use flash_db.Resp.{write_boolean, write_array_header, write_array}
use flash_db.Resp.Number.Parse.{parse_i64}
use flash_db.Value.{Clock, is_expired, as_set, StoreValue}
use flash_db.Store.{Store, Result}
use flash_db.Store.Sets
use flash_db.Commends.{parse_usize, wt}
use flash_db.Commends.Replies.{
  Appends, write_array-Appends, write_boolean-Appends, write_wrong_args-Appends,
}
use flash_db.Commends.Framing.{if_lem, wt-Appends, store_ok-Appends, parse_int-Appends}
use flash_db.Commends.Sets.{
  write_count, write_flags, write_first, scan_members, write_page, answer, sadd, srem, sismember,
  smismember, smembers, scard, spop, srandmember, smove, answer_stored, scan_entry, scan_reply,
}
use flash_db.Commends.Sets.Written.{
  write_flags-Appends, write_first-Appends, write_page-Appends, scan_members-Appends, count-Appends,
}

module _ {Z S : Type 0} where
  answer-Appends :
      {A : Type 0} (out : Bytes) (x : Store Z S × Result A) (reply : A → Bytes)
      → ((a : A) → Appends out (reply a))
      → Appends out (answer out x reply).1
  unfolding answer
  answer-Appends out x reply h = wt-Appends out x.1 reply h

  pub answer_stored-Appends :
      (out : Bytes) (x : Store Z S × Result ℕ) → Appends out (answer_stored out x).1
  unfolding answer_stored
  answer_stored-Appends out x = store_ok-Appends out x.1 (write_count out) (count-Appends out)

  scan_entry-Appends :
      (c : Clock) (pattern : Option Bytes) (e : StoreValue Z S) (out : Bytes)
      → Appends out (scan_entry c pattern e out)
  unfolding scan_entry
  scan_entry-Appends c pattern e out =
      if_lem (Appends out) (is_expired c e) (write_page out [])
        (scan_members pattern (as_set e.value) out) (write_page-Appends out [])
        (scan_members-Appends pattern (as_set e.value) out)

  pub scan_reply-Appends :
      (c : Clock) (pattern : Option Bytes) (e : Option (StoreValue Z S)) (out : Bytes)
      → Appends out (scan_reply c pattern e out)
  unfolding scan_reply
  scan_reply-Appends c pattern none out = write_page-Appends out []
  scan_reply-Appends c pattern (some e) out = scan_entry-Appends c pattern e out

  pub sadd-Appends :
      (c : Clock) (s : Store Z S) (parts : List Bytes) (out : Bytes)
      → Appends out (sadd c s parts out).1
  unfolding sadd
  sadd-Appends c s (name ∷ key ∷ m ∷ members) out =
      answer-Appends out (Sets.sadd c s key (m ∷ members)) (write_count out) (count-Appends out)
  sadd-Appends c s _ out = write_wrong_args-Appends out (codes "sadd") refl

  pub srem-Appends :
      (c : Clock) (s : Store Z S) (parts : List Bytes) (out : Bytes)
      → Appends out (srem c s parts out).1
  unfolding srem
  srem-Appends c s (name ∷ key ∷ m ∷ members) out =
      answer-Appends out (Sets.srem c s key (m ∷ members)) (write_count out) (count-Appends out)
  srem-Appends c s _ out = write_wrong_args-Appends out (codes "srem") refl

  pub sismember-Appends :
      (c : Clock) (s : Store Z S) (parts : List Bytes) (out : Bytes)
      → Appends out (sismember c s parts out).1
  unfolding sismember
  sismember-Appends c s (name ∷ key ∷ member ∷ []) out =
      wt-Appends out (Sets.sismember c s key member) (write_boolean out) (write_boolean-Appends out)
  sismember-Appends c s _ out = write_wrong_args-Appends out (codes "sismember") refl

  pub smismember-Appends :
      (c : Clock) (s : Store Z S) (parts : List Bytes) (out : Bytes)
      → Appends out (smismember c s parts out).1
  unfolding smismember
  smismember-Appends c s (name ∷ key ∷ m ∷ members) out =
      wt-Appends out (Sets.smismember c s key (m ∷ members))
        (λ results. write_flags (write_array_header out (length results)) results)
        (write_flags-Appends out)
  smismember-Appends c s _ out = write_wrong_args-Appends out (codes "smismember") refl

  pub smembers-Appends :
      (c : Clock) (s : Store Z S) (parts : List Bytes) (out : Bytes)
      → Appends out (smembers c s parts out).1
  unfolding smembers
  smembers-Appends c s (name ∷ key ∷ []) out =
      wt-Appends out (Sets.smembers c s key) (write_array out) (write_array-Appends out)
  smembers-Appends c s _ out = write_wrong_args-Appends out (codes "smembers") refl

  pub scard-Appends :
      (c : Clock) (s : Store Z S) (parts : List Bytes) (out : Bytes)
      → Appends out (scard c s parts out).1
  unfolding scard
  scard-Appends c s (name ∷ key ∷ []) out =
      wt-Appends out (Sets.scard c s key) (write_count out) (count-Appends out)
  scard-Appends c s _ out = write_wrong_args-Appends out (codes "scard") refl

  pub spop-Appends :
      (c : Clock) (s : Store Z S) (parts : List Bytes) (out : Bytes)
      → Appends out (spop c s parts out).1
  unfolding spop
  spop-Appends c s (name ∷ key ∷ []) out =
      answer-Appends out (Sets.spop c s key 1) (write_first out) (write_first-Appends out)
  spop-Appends c s (name ∷ key ∷ count ∷ []) out =
      parse_int-Appends s out (parse_usize count)
        (λ n. answer out (Sets.spop c s key n) (write_array out))
        (λ n. answer-Appends out (Sets.spop c s key n) (write_array out) (write_array-Appends out))
  spop-Appends c s _ out = write_wrong_args-Appends out (codes "spop") refl

  pub srandmember-Appends :
      (c : Clock) (s : Store Z S) (parts : List Bytes) (out : Bytes)
      → Appends out (srandmember c s parts out).1
  unfolding srandmember
  srandmember-Appends c s (name ∷ key ∷ []) out =
      wt-Appends out (Sets.srandmember c s key (pos 1)) (write_first out) (write_first-Appends out)
  srandmember-Appends c s (name ∷ key ∷ count ∷ []) out =
      parse_int-Appends s out (parse_i64 count)
        (λ n. (s, wt out (Sets.srandmember c s key n) (write_array out)))
        (λ n.
          wt-Appends out (Sets.srandmember c s key n) (write_array out) (write_array-Appends out))
  srandmember-Appends c s _ out = write_wrong_args-Appends out (codes "srandmember") refl

  pub smove-Appends :
      (c : Clock) (s : Store Z S) (parts : List Bytes) (out : Bytes)
      → Appends out (smove c s parts out).1
  unfolding smove
  smove-Appends c s (name ∷ src ∷ dst ∷ member ∷ []) out =
      answer-Appends out (Sets.smove c s src dst member) (write_boolean out)
        (write_boolean-Appends out)
  smove-Appends c s _ out = write_wrong_args-Appends out (codes "smove") refl
