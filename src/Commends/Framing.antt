-- ===== src/Commends/Framing.antt =====
-- The macros of src/macros/cmd.rs append one whole reply when what follows them does.
use flash_db.Base.{
  ◌≡◌, refl, Bool, true, false, if◌then◌else◌, none, some, Bytes, codes, Option, ◌⊎◌, inl, inr,
}
use flash_db.Store.{
  Result, ok, err, Error, wrong_type, no_such_key, index_out_of_range, not_an_integer,
  would_overflow, one_source, error_text,
}
use flash_db.Commends.{wt, store_ok, parse_int, with_options}
use flash_db.Commends.Replies.{Appends, is_line, write_err-Appends, write_wrong_type-Appends}

error_text-is_line : (e : Error) → is_line (error_text e) ≡ true
unfolding error_text
error_text-is_line wrong_type = refl
error_text-is_line no_such_key = refl
error_text-is_line index_out_of_range = refl
error_text-is_line not_an_integer = refl
error_text-is_line would_overflow = refl
error_text-is_line one_source = refl

pub wt-Appends :
    {A : Type 0}
    → (out : Bytes) (r : Result A) (reply : A → Bytes) → ((a : A) → Appends out (reply a))
    → Appends out (wt out r reply)
unfolding wt
wt-Appends out (ok a) reply h = h a
wt-Appends out (err e) reply h = write_wrong_type-Appends out

pub store_ok-Appends :
    {A : Type 0}
    → (out : Bytes) (r : Result A) (reply : A → Bytes) → ((a : A) → Appends out (reply a))
    → Appends out (store_ok out r reply)
unfolding store_ok
store_ok-Appends out (ok a) reply h = h a
store_ok-Appends out (err e) reply h = write_err-Appends out (error_text e) (error_text-is_line e)

pub parse_int-Appends :
    {X A : Type 0}
    → (s : X) (out : Bytes) (read : Option A) (next : A → X × Bytes)
    → ((n : A) → Appends out (next n).1)
    → Appends out (parse_int s out read next).1
unfolding parse_int
parse_int-Appends s out none next h = write_err-Appends out (codes "value is not an integer") refl
parse_int-Appends s out (some n) next h = h n

-- The text of an option loop's error stays within its line.
abbrev pub IsReported : {A : Type 0} → Bytes ⊎ A → Type 0
IsReported (inl message) = is_line message ≡ true
IsReported (inr options) = Unit

pub with_options-Appends :
    {X A : Type 0}
    → (s : X) (out : Bytes) (read : Bytes ⊎ A) (next : A → X × Bytes) → IsReported read
    → ((n : A) → Appends out (next n).1)
    → Appends out (with_options s out read next).1
unfolding with_options
with_options-Appends s out (inl message) next l h = write_err-Appends out message l
with_options-Appends s out (inr options) next l h = h options

pub if_lem : {A : Type 0} (P : A → Type 0) (b : Bool) (x y : A) → P x → P y → P (if b then x else y)
if_lem P true x y h g = h
if_lem P false x y h g = g
