-- ===== src/HashTable/Tests.antt =====
-- proj-pregame/src/lib/kernel/hash.c: a table of addresses that are equal when they end in the same
-- two digits.
use os_tools_and_features.Prelude.{
  ℕ, suc, length, ◌%◌, ◌≡◌, ◌∙◌, refl, [], ◌∷◌, none, some, Bool, true, false, not, ◌&&◌, ◌||◌,
  ◌==◌, ltb, arith,
}
use os_tools_and_features.Threads.{Ptr}
use os_tools_and_features.HashTable.{
  Hash, same, rehash, hash_find, hash_insert, hash_replace, hash_delete, hash_init, hash_size,
  hash_first, hash_apply, hash_clear, hash_destroy, bits_and, power_loop,
}
use os_tools_and_features.HashTable.Iteration.{iterate, iterate-hash_apply}
use os_tools_and_features.HashTable.Table.{Comparison, Valid, holds, is_none}
use os_tools_and_features.HashTable.Operations.{
  is_elem, elem_or, Outcome, hash_insert-hash_find, hash_replace-hash_find, hash_delete-hash_find,
}

abbrev digits : Ptr → ℕ
digits x = x % 100

abbrev fewer : Ptr → Ptr → Bool
fewer x y = ltb (x % 100) (y % 100)

same_digits : (x y : Ptr) → same digits fewer x y ≡ true → digits x ≡ digits y
same_digits x y h = ground arith

digits_same : (x y : Ptr) → digits x ≡ digits y → same digits fewer x y ≡ true
digits_same x y h = ground arith

fewer_lem : Comparison digits fewer
fewer_lem = record {
  irreflexive = λ x. ground arith;
  transitive = λ x y z a b. digits_same x z (same_digits x y a ∙ same_digits y z b);
  hash_same = same_digits;
}

-- A table of eight buckets in which 105, 209 and 3 were put while there was no memory.
abbrev empty : Hash
empty = record { elem_cnt = 0; bucket_cnt = 8; buckets = λ i. [] }

abbrev put : Hash → Ptr → Hash
put h e = (hash_insert digits fewer false h e).table

abbrev table : Hash
table = put (put (put empty 105) 209) 3

put-Valid : (h : Hash) (e : Ptr) → Valid digits fewer h → Valid digits fewer (put h e)
put-Valid h e v = (hash_insert-hash_find digits fewer fewer_lem false h e v).1.0

empty-Valid : Valid digits fewer empty
empty-Valid = record {
  all_placed = record {
    positive = omega arith;
    placed = λ i x h. absurd (ground arith);
    distinct = λ i. tt;
  };
  counted = refl;
  apart = λ x y a b s. absurd (ground arith);
}

table-Valid : Valid digits fewer table
table-Valid =
    put-Valid (put (put empty 105) 209) 3
      (put-Valid (put empty 105) 209 (put-Valid empty 105 empty-Valid))

-- 113 is new, 5 equals 105 and 9 equals 209. The table shrinks to four buckets.
hash_insert-hash_find_example :
    ((hash_insert digits fewer true table 113).elem ≡ hash_find digits fewer table 113)
    × Outcome digits fewer fewer_lem
        (hash_insert digits fewer true table 113).table
        (λ x.
          holds digits fewer table x
          || (is_none (hash_insert digits fewer true table 113).elem && 113 == x))
        113
        (some (elem_or (hash_insert digits fewer true table 113).elem 113))
hash_insert-hash_find_example =
    hash_insert-hash_find digits fewer fewer_lem true table 113 table-Valid

hash_replace-hash_find_example :
    ((hash_replace digits fewer true table 5).elem ≡ hash_find digits fewer table 5)
    × Outcome digits fewer fewer_lem
        (hash_replace digits fewer true table 5).table
        (λ x.
          (holds digits fewer table x
            && not (is_elem (hash_replace digits fewer true table 5).elem x))
          || 5 == x)
        5
        (some 5)
hash_replace-hash_find_example =
    hash_replace-hash_find digits fewer fewer_lem true table 5 table-Valid

hash_delete-hash_find_example :
    ((hash_delete digits fewer true table 9).elem ≡ hash_find digits fewer table 9)
    × Outcome digits fewer fewer_lem
        (hash_delete digits fewer true table 9).table
        (λ x.
          holds digits fewer table x
          && not (is_elem (hash_delete digits fewer true table 9).elem x))
        9
        none
hash_delete-hash_find_example =
    hash_delete-hash_find digits fewer fewer_lem true table 9 table-Valid

-- A run.
elements : (hash_replace digits fewer true table 5).table.buckets 1 ≡ 5 ∷ 209 ∷ []
unfolding hash_insert hash_replace rehash bits_and power_loop
elements = refl

counts : (hash_replace digits fewer true table 5).table.bucket_cnt ≡ 4
unfolding hash_insert hash_replace rehash bits_and power_loop
counts = refl

-- A new table, with memory and without.
init :
    (hash_init digits fewer true
      ≡ some (record { elem_cnt = 0; bucket_cnt = 4; buckets = λ i. [] }))
    × (hash_init digits fewer false ≡ none)
unfolding hash_init
init = (refl, refl)

iterate-hash_apply_example :
    (iterate (suc (hash_size table)) table (hash_first table) ≡ hash_apply table)
    × (length (hash_apply table) ≡ hash_size table)
iterate-hash_apply_example = iterate-hash_apply digits fewer table table-Valid

-- The elements, in the order of their buckets, and a table that is cleared.
visited : hash_apply table ≡ 209 ∷ 3 ∷ 105 ∷ []
unfolding hash_insert rehash bits_and power_loop
visited = refl

cleared :
    (hash_destroy true table ≡ 209 ∷ 3 ∷ 105 ∷ []) × (hash_apply (hash_clear true table).table ≡ [])
unfolding hash_clear hash_destroy hash_insert rehash bits_and power_loop
cleared = (refl, refl)
