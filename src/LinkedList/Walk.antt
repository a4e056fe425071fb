-- ===== src/LinkedList/Walk.antt =====
-- proj-pregame/src/lib/kernel/list.c: is_sorted(), find_end_of_run() and inplace_merge() on a chain.
use os_tools_and_features.Prelude.{
  ℕ, zero, suc, ◌+◌, ◌<◌, ◌≡◌, refl, sym, subst, inl, inr, List, [], ◌∷◌, ◌++◌, append_assoc,
  length, Bool, true, false, ◌==◌, arith, Bool-cases, ==_refl,
}
use os_tools_and_features.Threads.{Ptr, null}
use os_tools_and_features.LinkedList.{Memory, Run, ok, list_next, list_prev, list_splice}
use os_tools_and_features.LinkedList.Chain.{first_or, rest, Chain, has-parts}
use os_tools_and_features.LinkedList.Basic.{
  Leaves, list_prev-ok, list_splice-Leaves, step_end, step_next, step_on,
}
use os_tools_and_features.LinkedList.Sorting.{
  sorted_loop, is_sorted, run_loop, find_end_of_run, merge_loop, inplace_merge,
}
use os_tools_and_features.LinkedList.Merge.{Ordered, Merges, no_first, no_second, first, second}
use os_tools_and_features.LinkedList.Passes.{drop_run}

module _ (less : Ptr → Ptr → Bool) where
  module _ (m : Memory) where
    sorted_loop-ok :
        (k : ℕ) (ps : List Ptr) (x : Ptr) (xs : List Ptr) (t : Ptr) (qs : List Ptr)
        → Chain m (ps ++ (x ∷ (xs ++ (t ∷ qs))))
        → Ordered less (x ∷ xs)
        → length xs < k
        → sorted_loop less k x t m ≡ ok true m
    unfolding sorted_loop
    sorted_loop-ok zero ps x xs t qs c o h = absurd (omega arith)
    sorted_loop-ok (suc k) ps x [] t qs c o h = rw (step_next m ps x [] t qs c, ==_refl t) refl
    sorted_loop-ok (suc k) ps x (y ∷ ys) t qs c o h =
        let c' = step_on m ps x (y ∷ ys) t qs c in
        rw (step_next m ps x (y ∷ ys) t qs c, step_end m (ps ++ (x ∷ [])) y ys t qs c')
          (rw (list_prev-ok m ps x y (ys ++ (t ∷ qs)) c, o.0)
            (sorted_loop-ok k (ps ++ (x ∷ [])) y ys t qs c' o.1 (omega arith)))

    -- is_sorted() finds that an ordered range is.
    pub is_sorted-ok :
        (k : ℕ) (ps xs : List Ptr) (t : Ptr) (qs : List Ptr)
        → Chain m (ps ++ (xs ++ (t ∷ qs)))
        → Ordered less xs
        → length xs < k
        → is_sorted less k (first_or xs t) t m ≡ ok true m
    unfolding is_sorted
    is_sorted-ok k ps [] t qs c o h = rw (==_refl t) refl
    is_sorted-ok k ps (x ∷ xs) t qs c o h =
        rw (step_end m ps x xs t qs c) (sorted_loop-ok k ps x xs t qs c o (omega arith))

    run_loop-ok :
        (k : ℕ) (ps : List Ptr) (x : Ptr) (xs : List Ptr) (t : Ptr) (qs : List Ptr)
        → Chain m (ps ++ (x ∷ (xs ++ (t ∷ qs))))
        → length xs < k
        → run_loop less k x t m ≡ ok (first_or (drop_run less x xs) t) m
    unfolding run_loop
    run_loop-ok zero ps x xs t qs c h = absurd (omega arith)
    run_loop-ok (suc k) ps x [] t qs c h = rw (step_next m ps x [] t qs c, ==_refl t) refl
    run_loop-ok (suc k) ps x (y ∷ ys) t qs c h =
        let c' = step_on m ps x (y ∷ ys) t qs c in
        rw (step_next m ps x (y ∷ ys) t qs c, step_end m (ps ++ (x ∷ [])) y ys t qs c')
          (rw (list_prev-ok m ps x y (ys ++ (t ∷ qs)) c) (elim (Bool-cases (less y x)) [
            | inl e ↦ rw e refl
            | inr e ↦ rw e (run_loop-ok k (ps ++ (x ∷ [])) y ys t qs c' (omega arith))
          ]))

    -- find_end_of_run() returns the first element after the run, or the end of the range.
    pub find_end_of_run-ok :
        (k : ℕ) (ps : List Ptr) (x : Ptr) (xs : List Ptr) (t : Ptr) (qs : List Ptr)
        → Chain m (ps ++ (x ∷ (xs ++ (t ∷ qs))))
        → length xs < k
        → find_end_of_run less k x t m ≡ ok (first_or (drop_run less x xs) t) m
    unfolding find_end_of_run
    find_end_of_run-ok k ps x xs t qs c h =
        let z = has-parts null ps x xs t qs in
        let a : (x == null) ≡ false = ground (arith, c.nonnull) in
        let b : (t == null) ≡ false = ground (arith, c.nonnull) in
        rw (a, b) (rw (step_end m ps x xs t qs c) (run_loop-ok k ps x xs t qs c h))

pub head-rest :
    (ys : List Ptr) (b : Ptr) (qs : List Ptr)
    → ys ++ (b ∷ qs) ≡ first_or ys b ∷ rest (ys ++ (b ∷ qs))
head-rest [] b qs = refl
head-rest (y ∷ ys) b qs = refl

-- The step of the merge that moves `y` before `x`.
module _ (m : Memory) (ps : List Ptr) (p x : Ptr) (xs : List Ptr) (y : Ptr) (ys : List Ptr)
    (b : Ptr) (qs : List Ptr) (c : Chain m (ps ++ (p ∷ x ∷ (xs ++ (y ∷ (ys ++ (b ∷ qs))))))) where
  at_x : Chain m ((ps ++ (p ∷ [])) ++ (x ∷ (xs ++ (y ∷ (ys ++ (b ∷ qs))))))
  at_x = step_on m ps p (x ∷ xs) y (ys ++ (b ∷ qs)) c

  at_y : Chain m (((ps ++ (p ∷ [])) ++ (x ∷ xs)) ++ (y ∷ (ys ++ (b ∷ qs))))
  at_y = subst (Chain m) (sym (append_assoc (ps ++ (p ∷ [])) (x ∷ xs) (y ∷ (ys ++ (b ∷ qs))))) at_x

  x_y : (x == y) ≡ false
  x_y = step_end m (ps ++ (p ∷ [])) x xs y (ys ++ (b ∷ qs)) at_x

  y_b : (y == b) ≡ false
  y_b = step_end m ((ps ++ (p ∷ [])) ++ (x ∷ xs)) y ys b qs at_y

  next_x : list_next x m ≡ ok (first_or xs y) m
  next_x = step_next m (ps ++ (p ∷ [])) x xs y (ys ++ (b ∷ qs)) at_x

  next_y : list_next y m ≡ ok (first_or ys b) m
  next_y = step_next m ((ps ++ (p ∷ [])) ++ (x ∷ xs)) y ys b qs at_y

  prev_n : list_prev (first_or ys b) m ≡ ok y m
  prev_n =
      list_prev-ok m ((ps ++ (p ∷ [])) ++ (x ∷ xs)) y (first_or ys b) (rest (ys ++ (b ∷ qs)))
        (subst (λ w. Chain m (((ps ++ (p ∷ [])) ++ (x ∷ xs)) ++ (y ∷ w))) (head-rest ys b qs) at_y)

  moved :
      Leaves tt (ps ++ (p ∷ y ∷ x ∷ (xs ++ (ys ++ (b ∷ qs))))) (list_splice x y (first_or ys b) m)
  moved =
      subst (λ w. Leaves tt (ps ++ (p ∷ y ∷ x ∷ (xs ++ w))) (list_splice x y (first_or ys b) m))
        (sym (head-rest ys b qs))
        (list_splice-Leaves m ps p x xs y [] (first_or ys b) (rest (ys ++ (b ∷ qs)))
          (subst (λ w. Chain m (ps ++ (p ∷ x ∷ (xs ++ (y ∷ w))))) (head-rest ys b qs) c))

module _ (less : Ptr → Ptr → Bool) where
  -- A run that leaves the merge of two ranges in their place.
  abbrev pub Merged : List Ptr → Ptr → List Ptr → List Ptr → List Ptr → Run (Unit {0}) → Type 0
  Merged ps p xs ys qs r =
      (g : Memory) × (zs : List Ptr) × (r ≡ ok tt g)
      × Merges less xs ys zs
      × Chain g (ps ++ (p ∷ (zs ++ qs)))

  merge_loop-Merged :
      (k : ℕ) (m : Memory) (ps : List Ptr) (p : Ptr) (xs ys : List Ptr) (b : Ptr) (qs : List Ptr)
      → Chain m (ps ++ (p ∷ (xs ++ (ys ++ (b ∷ qs)))))
      → length xs + length ys < k
      → Merged ps p xs ys
          (b ∷ qs)
          (merge_loop less k (first_or xs (first_or ys b)) (first_or ys b) b m)
  unfolding merge_loop
  merge_loop-Merged zero m ps p xs ys b qs c h = absurd (omega arith)
  merge_loop-Merged (suc k) m ps p [] ys b qs c h =
      (m, ys, rw (==_refl (first_or ys b)) refl, no_first, c)
  merge_loop-Merged (suc k) m ps p (x ∷ xs) [] b qs c h = (
    m,
    (x ∷ xs),
    rw (step_end m (ps ++ (p ∷ [])) x xs b qs (step_on m ps p (x ∷ xs) b qs c), ==_refl b) refl,
    no_second,
    c,
  )
  merge_loop-Merged (suc k) m ps p (x ∷ xs) (y ∷ ys) b qs c h = elim (Bool-cases (less y x)) [
    | inl e ↦
        let (f, r, d) = moved m ps p x xs y ys b qs c in
        let (g, zs, r', q, c') =
          merge_loop-Merged k f (ps ++ (p ∷ [])) y (x ∷ xs) ys b qs
            (subst (Chain f) (sym (append_assoc ps (p ∷ []) (y ∷ x ∷ (xs ++ (ys ++ (b ∷ qs)))))) d)
            (omega arith) in
        (
          g,
          (y ∷ zs),
          rw (x_y m ps p x xs y ys b qs c, y_b m ps p x xs y ys b qs c, e)
              (rw (next_y m ps p x xs y ys b qs c) (rw (prev_n m ps p x xs y ys b qs c, r) r')),
          second e q,
          subst (Chain g) (append_assoc ps (p ∷ []) (y ∷ (zs ++ (b ∷ qs)))) c',
        )
    | inr e ↦
        let (g, zs, r', q, c') =
          merge_loop-Merged k m (ps ++ (p ∷ [])) x xs (y ∷ ys) b qs (at_x m ps p x xs y ys b qs c)
            (omega arith) in
        (
          g,
          (x ∷ zs),
          rw (x_y m ps p x xs y ys b qs c, y_b m ps p x xs y ys b qs c, e)
              (rw (next_x m ps p x xs y ys b qs c) r'),
          first e q,
          subst (Chain g) (append_assoc ps (p ∷ []) (x ∷ (zs ++ (b ∷ qs)))) c',
        )
  ]

  -- inplace_merge() of two ordered ranges.
  pub inplace_merge-Merged :
      (k : ℕ) (m : Memory) (ps : List Ptr) (p x : Ptr) (xs : List Ptr) (y : Ptr) (ys : List Ptr)
      (b : Ptr) (qs : List Ptr)
      → Chain m (ps ++ (p ∷ x ∷ (xs ++ (y ∷ (ys ++ (b ∷ qs))))))
      → Ordered less (x ∷ xs)
      → Ordered less (y ∷ ys)
      → length (x ∷ xs) + length (y ∷ ys) < k
      → Merged ps p (x ∷ xs) (y ∷ ys) (b ∷ qs) (inplace_merge less k x y b m)
  unfolding inplace_merge
  inplace_merge-Merged k m ps p x xs y ys b qs c o q h =
      let (g, zs, r, d, c') = merge_loop-Merged k m ps p (x ∷ xs) (y ∷ ys) b qs c h in
      let u = at_x m ps p x xs y ys b qs c in
      let v = at_y m ps p x xs y ys b qs c in
      let n1 = has-parts null (ps ++ (p ∷ [])) x xs y (ys ++ (b ∷ qs)) in
      let n2 = has-parts null ((ps ++ (p ∷ [])) ++ (x ∷ xs)) y ys b qs in
      let x0 : (x == null) ≡ false = ground (arith, u.nonnull) in
      let y0 : (y == null) ≡ false = ground (arith, v.nonnull) in
      let b0 : (b == null) ≡ false = ground (arith, v.nonnull) in
      let s =
        is_sorted-ok less m k (ps ++ (p ∷ [])) (x ∷ xs) y (ys ++ (b ∷ qs)) u o (omega arith) in
      let t =
        is_sorted-ok less m k ((ps ++ (p ∷ [])) ++ (x ∷ xs)) (y ∷ ys) b qs v q (omega arith) in
      (g, zs, rw (x0, y0, b0) (rw (s, t) r), d, c')
