-- ===== src/Store/Tests.antt =====
-- The theorems on the store at one with a list, a string that expires later, and an expired list.
use flash_db.Base.{
  ℕ, ◌+◌, ◌<◌, ◌^◌, ◌≡◌, refl, sym, ◌∙◌, false, Bool, Option, none, some, List, [], ◌∷◌, ◌++◌,
  Bytes, codes, length, ◌=ₛ◌, arith,
}
use mathlib.Core.Path.{subst}
use flash_db.Base.Int.{pos, negsuc}
use flash_db.Map.{get_ref, find}
use flash_db.Value.{string, list, StoreValue, Clock, is_expired, approx_now_ms, as_list}
use flash_db.Value.Collections.{ListInner, deque}
use flash_db.Store.{Store, Result, ok, err, add_ttl, finish_ttl_scan, has_ttl_keys}
use flash_db.Store.Keys.{copy, renamenx, expire_ms}
use flash_db.Store.Keys.Renames.{after_renamenx, renamenx-after_renamenx}
use flash_db.Store.Ttl.{ttl_keys, IsCovered, finish_ttl_scan-add_ttl}
use flash_db.Store.Ttl.Steps.{done, more, expires, Steps-IsCovered, copy_uncounted}
use flash_db.Store.Lists.{rpush, lpop, rpop, lpush, lrange}
use flash_db.Store.Lists.Edit.{ltrim}
use flash_db.Store.Lists.Refine.{view, listed, Refines}
use flash_db.Store.Lists.Commands.{rpush-Refines}
use flash_db.Store.Lists.Contents.{lrange-ltrim}

abbrev clock : Clock
clock = record { unix_ms_cache = 0; now_ms = 1000 }

abbrev letters : StoreValue ℕ ℕ
letters = record { value = list (ListInner.compact (codes "a" ∷ codes "b" ∷ [])); expires_ms = 0 }

abbrev stale : StoreValue ℕ ℕ
stale = record { value = list (ListInner.compact (codes "z" ∷ [])); expires_ms = 500 }

abbrev session : StoreValue ℕ ℕ
session = record { value = string (codes "x"); expires_ms = 5000 }

abbrev kept : Store ℕ ℕ
kept = record {
  contents = record {
    entries = (codes "l", some letters) ∷ (codes "e", some stale) ∷ (codes "s", some session) ∷ [];
    key_count = 3;
    max_keys = 8;
  };
  connected_clients = 1;
  ttl_count = 2;
  ttl_generation = 2;
}

rpush-Refines_example :
    Refines clock kept
      (codes "e")
      (rpush clock kept (codes "e") (codes "c" ∷ []))
      (λ l. (l ++ codes "c" ∷ [], ok (length (l ++ codes "c" ∷ []))))
      (codes "l")
rpush-Refines_example = rpush-Refines clock kept (codes "e") (codes "l") (codes "c" ∷ [])

abbrev first_byte : Bytes → ℕ
first_byte [] = 0
first_byte (b ∷ s) = b

-- The length of a list that a key stands for.
abbrev size : Result (List Bytes) → ℕ
size (ok l) = length l
size (err e) = 0

s_found : get_ref kept.contents (codes "s") ≡ some session
unfolding get_ref find ◌=ₛ◌
s_found = refl

t_missing : get_ref kept.contents (codes "t") ≡ none
unfolding get_ref find ◌=ₛ◌
t_missing = refl

session_live : is_expired clock session ≡ false
unfolding is_expired approx_now_ms
session_live = refl

s_ne_t : (codes "s" =ₛ codes "t") ≡ false
unfolding ◌=ₛ◌
s_ne_t = refl

s_ne_l : (codes "s" =ₛ codes "l") ≡ false
unfolding ◌=ₛ◌
s_ne_l = refl

l_listed : listed clock kept (codes "l") ≡ ok (codes "a" ∷ codes "b" ∷ [])
unfolding listed view get_ref find ◌=ₛ◌ is_expired as_list deque
l_listed = refl

l_short : (l : List Bytes) → listed clock kept (codes "l") ≡ ok l → length l < 2 ^ 64
l_short l e = subst (λ (r : Result (List Bytes)). size r < 2 ^ 64) (sym l_listed ∙ e) (omega arith)

lrange-ltrim_example :
    lrange clock kept (codes "l") (pos 1) (negsuc 0)
    ≡ listed clock (ltrim clock kept (codes "l") (pos 1) (negsuc 0)).0 (codes "l")
lrange-ltrim_example = lrange-ltrim clock kept (codes "l") (pos 1) (negsuc 0) l_short

kept-IsCovered : IsCovered kept
unfolding flash_db.Store.Ttl.total
kept-IsCovered = omega arith

Steps-IsCovered_example : IsCovered (expire_ms clock kept (codes "l") 9000).0
Steps-IsCovered_example =
    Steps-IsCovered
      (more kept (expire_ms clock kept (codes "l") 9000).0 (expire_ms clock kept (codes "l") 9000).0
        (expires clock kept (codes "l") 9000 (omega arith))
        (done (expire_ms clock kept (codes "l") 9000).0))
      kept-IsCovered

copy_uncounted_example :
    let after = (copy clock kept (codes "s") (codes "t") false).0 in
    (ttl_keys after ≡ ttl_keys kept + 1) × (after.ttl_count ≡ 2)
copy_uncounted_example =
    copy_uncounted clock kept (codes "s") (codes "t") session s_found session_live refl t_missing

renamenx-after_renamenx_example :
    let after = renamenx clock kept (codes "s") (codes "l") in
    ◌≡◌ {A = Option (StoreValue ℕ ℕ) × Bool}
      (get_ref after.0.contents (codes "s"), after.1)
      (after_renamenx clock kept
        (codes "s")
        (codes "l")
        (codes "s")
        (get_ref kept.contents (codes "s"))
        (get_ref kept.contents (codes "l")))
renamenx-after_renamenx_example =
    renamenx-after_renamenx clock kept (codes "s") (codes "l") (codes "s") s_ne_l
