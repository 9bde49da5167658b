-- ===== src/Store/Lists/Deque/Loops.antt =====
-- The pushing and popping loops of src/storage/list.rs against functions on lists.
use flash_db.Base.{
  ℕ, zero, suc, ◌≡◌, refl, sym, ap, ◌∙◌, some, [], ◌∷◌, ◌++◌, reverse, Bytes, take, drop,
  append_assoc, append-nil, take-nil, drop-nil,
}
use mathlib.Core.List.{reverse-cons, reverse-reverse}
use flash_db.Store.Lists.Deque.{Deque, push_fronts, push_backs, pop_back, pop_fronts, pop_backs}

pub push_fronts-eq-reverse : (vs l : Deque) → push_fronts vs l ≡ reverse vs ++ l
unfolding push_fronts
push_fronts-eq-reverse [] l = refl
push_fronts-eq-reverse (v ∷ vs) l =
    push_fronts-eq-reverse vs (v ∷ l)
    ∙ rw (reverse-cons v vs) (sym (append_assoc (reverse vs) (v ∷ []) l))

pub push_backs-eq-append : (vs l : Deque) → push_backs vs l ≡ l ++ vs
unfolding push_backs
push_backs-eq-append [] l = sym (append-nil l)
push_backs-eq-append (v ∷ vs) l = push_backs-eq-append vs (l ++ v ∷ []) ∙ append_assoc l (v ∷ []) vs

pub pop_fronts-eq-take : (n : ℕ) (l : Deque) → pop_fronts n l ≡ (take n l, drop n l)
unfolding pop_fronts
pop_fronts-eq-take zero l = refl
pop_fronts-eq-take (suc n) [] = pop_fronts-eq-take n [] ∙ rw (take-nil n, drop-nil n) refl
pop_fronts-eq-take (suc n) (v ∷ l) = rw (pop_fronts-eq-take n l) refl

pop_back-append : (l : Deque) (v : Bytes) → pop_back (l ++ v ∷ []) ≡ some (v, l)
unfolding pop_back
pop_back-append [] v = refl
pop_back-append (w ∷ l) v = rw (pop_back-append l v) refl

pop_backs_nil : (n : ℕ) → pop_backs n [] ≡ ([], [])
unfolding pop_backs pop_back
pop_backs_nil zero = refl
pop_backs_nil (suc n) = pop_backs_nil n

-- What is popped off the end is the reversed list's front.
pop_backs-reverse : (n : ℕ) (l : Deque) → pop_backs n (reverse l) ≡ (take n l, reverse (drop n l))
unfolding pop_backs
pop_backs-reverse zero l = refl
pop_backs-reverse (suc n) [] = pop_backs_nil (suc n)
pop_backs-reverse (suc n) (v ∷ l) =
    rw (reverse-cons v l, pop_back-append (reverse l) v, pop_backs, pop_backs-reverse n l) refl

pub pop_backs-eq-take :
    (n : ℕ) (l : Deque) → pop_backs n l ≡ (take n (reverse l), reverse (drop n (reverse l)))
pop_backs-eq-take n l = ap (pop_backs n) (sym (reverse-reverse l)) ∙ pop_backs-reverse n (reverse l)
