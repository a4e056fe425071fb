-- ===== src/Heapsort.antt =====
-- proj-pregame/src/lib/stdlib.c: the heap sort and the binary search. An array is its elements, by an
-- index from 1 on as in the code of sort(), and from 0 on in binary_search(). The loops of heapify() and
-- of binary_search() run on fuel; one round more than there are elements is enough.
pub mod Sift
pub mod Order
pub mod Search
pub mod Tests
use os_tools_and_features.Prelude.{
  ℕ, zero, suc, ◌+◌, ◌-◌, ◌*◌, ◌/◌, Option, none, some, map, Bool, true, false, not, ◌&&◌, ◌||◌,
  ◌==◌, ltb, leb, if◌then◌else◌,
}

-- The sign of what COMPARE returns.
pub data Compared : Type 0 where
  less same more : Compared

abbrev pub is_more : Compared → Bool
is_more less = false
is_more same = false
is_more more = true

abbrev pub do_swap : {A : Type 0} → (ℕ → A) → ℕ → ℕ → ℕ → A
do_swap array a b p = if p == a then array b else if p == b then array a else array p

-- The end of a loop on fuel, which may have used it up.
pub data Outcome (A : Type 0) : Type 0 where
  done : A → Outcome A
  running : Outcome A

abbrev pub and_then : {A B : Type 0} → Outcome A → (A → Outcome B) → Outcome B
and_then (done a) f = f a
and_then running f = running

module _ {A : Type 0} (compare : A → A → Compared) where
  abbrev pub do_compare : (ℕ → A) → ℕ → ℕ → Compared
  do_compare array a b = compare (array a) (array b)

  -- `max` in heapify(), after the comparison with the left child, and with both.
  abbrev pub max_left : (ℕ → A) → ℕ → ℕ → ℕ
  max_left array i cnt =
      if leb (2 * i) cnt && is_more (do_compare array (2 * i) i) then 2 * i else i

  abbrev pub max_both : (ℕ → A) → ℕ → ℕ → ℕ
  max_both array i cnt =
      if leb (2 * i + 1) cnt && is_more (do_compare array (2 * i + 1) (max_left array i cnt))
      then 2 * i + 1
      else max_left array i cnt

  unfoldable pub heapify : ℕ → (ℕ → A) → ℕ → ℕ → Outcome (ℕ → A)
  heapify zero array i cnt = running
  heapify (suc k) array i cnt =
      let rest = heapify k (do_swap array i (max_both array i cnt)) (max_both array i cnt) cnt in
      if max_both array i cnt == i then done array else rest

  -- The loops of sort(), each from its `i` down.
  unfoldable pub build_loop : ℕ → ℕ → (ℕ → A) → ℕ → Outcome (ℕ → A)
  build_loop k zero array cnt = done array
  build_loop k (suc i) array cnt =
      and_then (heapify k array (suc i) cnt) (λ a. build_loop k i a cnt)

  unfoldable pub extract_loop : ℕ → ℕ → (ℕ → A) → Outcome (ℕ → A)
  extract_loop k zero array = done array
  extract_loop k (suc i) array =
      if i == 0
      then done array
      else and_then (heapify k (do_swap array 1 (suc i)) 1 i) (λ a. extract_loop k i a)

  unfoldable pub sort : ℕ → (ℕ → A) → ℕ → Outcome (ℕ → A)
  sort k array cnt = and_then (build_loop k (cnt / 2) array cnt) (λ a. extract_loop k cnt a)

-- binary_search() of the elements from `first` to before `last`; the result is an index.
module _ {K A : Type 0} (compare : K → A → Compared) where
  unfoldable pub search_loop : ℕ → K → (ℕ → A) → ℕ → ℕ → Outcome (Option ℕ)
  search_loop zero key array first last = running
  search_loop (suc k) key array first last =
      let middle = first + (last - first) / 2 in
      let lower = search_loop k key array first middle in
      let upper = search_loop k key array (middle + 1) last in
      if not (ltb first last) then done none else elim (compare key (array middle)) [
        | less ↦ lower
        | more ↦ upper
        | same ↦ done (some middle)
      ]

  unfoldable pub binary_search : ℕ → K → (ℕ → A) → ℕ → Outcome (Option ℕ)
  binary_search k key array cnt = search_loop k key array 0 cnt
