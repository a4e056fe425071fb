-- ===== src/Heapsort/Tests.antt =====
-- proj-pregame/src/lib/stdlib.c: an array of numbers, sorted and searched.
use os_tools_and_features.Prelude.{
  ℕ, ◌+◌, ◌<◌, ◌≡◌, inl, inr, refl, sym, ap, ◌∙◌, Bool-cases, Option, true, false, ◌==◌, ltb,
  if◌then◌else◌, arith,
}
use os_tools_and_features.Heapsort.{Compared, less, same, more, is_more, done, sort, binary_search}
use os_tools_and_features.Heapsort.Sift.{Rearranged, Total, above}
use os_tools_and_features.Heapsort.Order.{Ascending, sort-Ascending}
use os_tools_and_features.Heapsort.Search.{InOrder, Found, binary_search-Found}

abbrev compare : ℕ → ℕ → Compared
compare x y = if ltb x y then less else if x == y then same else more

above_lt : (x y : ℕ) → above compare x y ≡ ltb y x
above_lt x y = elim (Bool-cases (ltb x y)) [
  | inl e ↦ rw e (ground arith)
  | inr e ↦ elim (Bool-cases (x == y)) [
    | inl f ↦ rw (e, f) (ground arith)
    | inr f ↦ rw (e, f) (ground arith)
  ]
]

compare-Total : Total compare
compare-Total = record {
  asym = λ x y h. let e = sym (above_lt x y) ∙ h in above_lt y x ∙ ground arith;
  trans = λ x y z h k.
      let e = sym (above_lt x y) ∙ h in
      let f = sym (above_lt y z) ∙ k in above_lt x z ∙ ground arith;
}

compare_less : (x y : ℕ) → compare x y ≡ less → x < y
compare_less x y h = elim (Bool-cases (ltb x y)) [
  | inl e ↦ ground arith
  | inr e ↦ elim (Bool-cases (x == y)) [
    | inl f ↦ let g : same ≡ less = rw (e, f) at h in absurd cc
    | inr f ↦ let g : more ≡ less = rw (e, f) at h in absurd cc
  ]
]

abbrev array : ℕ → ℕ
array i = if i == 1 then 5 else if i == 2 then 9 else if i == 3 then 7 else 0

sort-Ascending_example :
    (b : ℕ → ℕ) × (sort compare 4 array 3 ≡ done b)
    × Ascending compare compare-Total b 0 3
    × Rearranged b array 3
sort-Ascending_example = sort-Ascending compare compare-Total 4 array 3 (omega arith)

abbrev ordered : ℕ → ℕ
ordered i = i + i

ordered-InOrder : InOrder compare 6 ordered 5
ordered-InOrder p q h k = (
  λ e.
      let i = compare_less 6 (ordered p) e in
      let j : ltb 6 (ordered q) ≡ true = ground arith in rw j refl,
  λ e.
      let i = sym (above_lt 6 (ordered q)) ∙ ap is_more e in
      let j : ltb 6 (ordered p) ≡ false = ground arith in
      let n : (6 == ordered p) ≡ false = ground arith in rw (j, n) refl,
)

binary_search-Found_example :
    (r : Option ℕ) × (binary_search compare 6 6 ordered 5 ≡ done r) × Found compare 6 ordered 0 5 r
binary_search-Found_example =
    binary_search-Found compare 6 ordered 6 5 ordered-InOrder (omega arith)
