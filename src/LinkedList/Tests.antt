-- ===== src/LinkedList/Tests.antt =====
-- proj-pregame/src/lib/kernel/list.c: lists of three elements, built and sorted.
use os_tools_and_features.Prelude.{
  suc, ◌≡◌, refl, List, [], ◌∷◌, ◌++◌, length, ltb, true, false, arith, ◌==◌, if◌then◌else◌,
}
use os_tools_and_features.Threads.{Ptr}
use os_tools_and_features.LinkedList.Reverse.{reversed, list_reverse-reversed}
use os_tools_and_features.LinkedList.{
  list_reverse, Memory, Header, ◌>>◌, list_push_back, list_push_front, list_pop_front,
  list_pop_back, list_size,
}
use os_tools_and_features.LinkedList.Basic.{Leaves}
use os_tools_and_features.LinkedList.Deque.{whole, Holds, push-pop}
use os_tools_and_features.LinkedList.Sorting.{list_sort, list_insert_ordered}
use os_tools_and_features.LinkedList.Merge.{Ordered}
use os_tools_and_features.LinkedList.Sort.{SortedBy, list_sort-SortedBy}
use os_tools_and_features.LinkedList.Insert.{placed, list_insert_ordered-Ordered}

abbrev headers : Header
headers = record { head = 1; tail = 2 }

abbrev elements : List Ptr
elements = 5 ∷ 3 ∷ 4 ∷ []

abbrev ordered_elements : List Ptr
ordered_elements = 3 ∷ 4 ∷ 7 ∷ []

-- The list of the elements 5, 3 and 4.
abbrev three : Memory
three = record {
  prev = λ x.
      if x == 5
      then 1
      else (if x == 3 then 5 else (if x == 4 then 3 else (if x == 2 then 4 else 0)));
  next = λ x.
      if x == 1
      then 5
      else (if x == 5 then 3 else (if x == 3 then 4 else (if x == 4 then 2 else 0)));
}

three-Holds : Holds three headers elements
three-Holds = record {
  linked = (refl, refl, (refl, refl, (refl, refl, (refl, refl, tt))));
  distinct = (refl, (refl, (refl, (refl, (refl, tt)))));
  nonnull = refl;
}

push-pop_example :
    Leaves tt (whole headers (6 ∷ elements)) (list_push_front headers 6 three)
    × Leaves 6
        (whole headers elements)
        ((list_push_front headers 6 >> list_pop_front headers) three)
    × Leaves tt (whole headers (elements ++ (6 ∷ []))) (list_push_back headers 6 three)
    × Leaves 6 (whole headers elements) ((list_push_back headers 6 >> list_pop_back headers) three)
    × Leaves
        (suc (length elements))
        (whole headers (elements ++ (6 ∷ [])))
        ((list_push_back headers 6 >> list_size 5 headers) three)
    × Leaves
        (suc (length elements))
        (whole headers (6 ∷ elements))
        ((list_push_front headers 6 >> list_size 5 headers) three)
push-pop_example = push-pop three headers elements 6 4 three-Holds (omega arith) refl (omega arith)

less_asym : (x y : Ptr) → ltb x y ≡ true → ltb y x ≡ false
less_asym x y h = ground arith

less_trans : (x y z : Ptr) → ltb x y ≡ true → ltb y z ≡ true → ltb x z ≡ true
less_trans x y z h k = ground arith

list_sort-SortedBy_example : SortedBy ltb headers elements (list_sort ltb 4 headers three)
list_sort-SortedBy_example =
    list_sort-SortedBy ltb less_asym headers 4 three elements three-Holds (omega arith)

-- The list of the elements 3, 4 and 7.
abbrev in_order : Memory
in_order = record {
  prev = λ x.
      if x == 3
      then 1
      else (if x == 4 then 3 else (if x == 7 then 4 else (if x == 2 then 7 else 0)));
  next = λ x.
      if x == 1
      then 3
      else (if x == 3 then 4 else (if x == 4 then 7 else (if x == 7 then 2 else 0)));
}

in_order-Holds : Holds in_order headers ordered_elements
in_order-Holds = record {
  linked = (refl, refl, (refl, refl, (refl, refl, (refl, refl, tt))));
  distinct = (refl, (refl, (refl, (refl, (refl, tt)))));
  nonnull = refl;
}

list_insert_ordered-Ordered_example :
    Leaves tt
      (whole headers (placed ltb 6 ordered_elements))
      (list_insert_ordered ltb 4 headers 6 in_order)
    × Ordered ltb (placed ltb 6 ordered_elements)
list_insert_ordered-Ordered_example =
    list_insert_ordered-Ordered ltb less_asym 4 in_order headers ordered_elements 6 in_order-Holds
      (refl, (refl, tt)) (omega arith) refl (omega arith)

list_reverse-reversed_example :
    Leaves tt (whole headers (reversed elements [])) (list_reverse 4 headers three)
list_reverse-reversed_example =
    list_reverse-reversed three headers 4 elements three-Holds (omega arith)
