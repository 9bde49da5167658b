-- ===== src/Value/SortedSet/Tests.antt =====
-- The theorems on sorted sets at one of two members, in the order of their scores 1 and 2.
use flash_db.Base.{
  ◌≤◌, ◌+◌, ◌^◌, ◌≡◌, refl, true, false, not, none, some, List, [], ◌∷◌, codes, length, ◌=ₛ◌,
  if◌then◌else◌, arith,
}
use flash_db.Value.Float.{F64, is_nan, key, lt, eq, le, Rounding}
use flash_db.Value.SortedSet.{
  ZEntry, ZSetData, ltb_str, precedes, listed, insert, remove, get_score, len, bloom_rebuild,
}
use flash_db.Value.SortedSet.Places.{IsOrdered}
use flash_db.Value.SortedSet.Bloom.{bloom_rebuild_lem}
use flash_db.Value.SortedSet.Insertion.{IsZSet, Inserted, insert_in_order}
use flash_db.Value.SortedSet.Removal.{remove_in_order}
use flash_db.Value.SortedSet.Ranges.{
  range_by_score, count_in_score_range, filtered, remove_range_by_score,
}
use flash_db.Value.SortedSet.Ranges.Scores.{between, ranges_lem}
use flash_db.Value.SortedSet.Ranges.Reversed.{reversed_lem}

abbrev one : F64
one = 0x3ff0000000000000

abbrev two : F64
two = 0x4000000000000000

abbrev three : F64
three = 0x4008000000000000

-- Sums and products are only taken of equal numbers here, and no two numbers are close.
abbrev pub rounding : Rounding
rounding = record {
  add = λ a b. a;
  mul = λ a b. a;
  far = λ a b. not (eq a b);
  min_of = λ a b. if lt b a then b else a;
  max_of = λ a b. if lt a b then b else a;
}

abbrev pub ranked : List ZEntry
ranked =
    record { score = one; member = codes "Ann" }
    ∷ record { score = three; member = codes "Bob" }
    ∷ []

abbrev pub board : ZSetData
board = record { entries = ranked; bloom = bloom_rebuild ranked }

ranked-IsOrdered : IsOrdered ranked
unfolding is_nan key lt eq precedes ltb_str listed ◌=ₛ◌
ranked-IsOrdered = (refl, refl, (refl, tt), (refl, refl, tt, tt))

pub board-IsZSet : IsZSet board
board-IsZSet = let l = bloom_rebuild_lem ranked in (ranked-IsOrdered, l.0, l.1)

two_number : is_nan two ≡ false
unfolding is_nan
two_number = refl

insert_in_order_example :
    Inserted rounding board two (codes "Cat") (insert rounding board two (codes "Cat"))
insert_in_order_example = insert_in_order rounding board two (codes "Cat") two_number board-IsZSet

remove_in_order_example :
    let done = remove board (codes "Ann") in
    IsZSet done.0
    × (get_score done.0 (codes "Bob")
        ≡ (if codes "Ann" =ₛ codes "Bob" then none else get_score board (codes "Bob")))
    × (done.1 ≡ get_score board (codes "Ann"))
    × (len board ≡ len done.0 + (elim done.1 [ none ↦ 0 | some score ↦ 1 ]))
remove_in_order_example = remove_in_order board (codes "Ann") (codes "Bob") board-IsZSet

bounds_fit : le one two ≡ true
unfolding lt eq is_nan key
bounds_fit = refl

ranges_lem_example :
    (range_by_score board one two ≡ some (filtered (between one two) ranked))
    × (count_in_score_range board one two ≡ length (filtered (between one two) ranked))
    × ((remove_range_by_score board one two).0.entries
        ≡ filtered (λ e. not (between one two e)) ranked)
    × ((remove_range_by_score board one two).1 ≡ length (filtered (between one two) ranked))
ranges_lem_example = ranges_lem board one two bounds_fit ranked-IsOrdered (omega arith)

around_two : (lt two three ≡ true) × (lt one two ≡ true)
unfolding lt is_nan key
around_two = (refl, refl)

abbrev middle : ZSetData
middle = record { entries = record { score = two; member = codes "Ann" } ∷ []; bloom = [] }

middle-IsOrdered : IsOrdered middle.entries
unfolding is_nan listed
middle-IsOrdered = (refl, refl, tt, tt)

reversed_lem_example :
    (range_by_score middle three one ≡ none) × (2 ^ 63 ≤ count_in_score_range middle three one)
reversed_lem_example =
    reversed_lem middle three one [] [] (record { score = two; member = codes "Ann" }) refl
      middle-IsOrdered (omega arith) around_two.1 around_two.0
