-- ===== src/LinkedList/Sort.antt =====
-- proj-pregame/src/lib/kernel/list.c: list_sort().
use os_tools_and_features.Prelude.{
  ℕ, zero, suc, ◌+◌, ◌<◌, ◌≡◌, refl, sym, ap, subst, ◌∙◌, inl, inr, List, [], ◌∷◌, ◌++◌,
  append_assoc, length, length-append, ltb, Bool, true, false, ◌==◌, arith, Bool-cases, List-cases,
  ==_refl,
}
use mathlib.Core.List.{Perm}
use mathlib.Core.List.Perm
use os_tools_and_features.Threads.{Ptr}
use os_tools_and_features.LinkedList.{Memory, Header, Run, ok}
use os_tools_and_features.LinkedList.Chain.{first_or, rest, Chain, init, last_of, init-last}
use os_tools_and_features.LinkedList.Basic.{step_end, step_on}
use os_tools_and_features.LinkedList.Deque.{Holds, list_begin-ok}
use os_tools_and_features.LinkedList.Sorting.{
  find_end_of_run, inplace_merge, pass_loop, sort_loop, list_sort,
}
use os_tools_and_features.LinkedList.Merge.{Perm-length, Ordered, runs, runs-Ordered, runs_length}
use os_tools_and_features.LinkedList.Passes.{
  take_run, drop_run, Passes, none_left, one_left, two_merged, take-append-drop, take_run-Ordered,
  Passes-Perm, Passes-half, Passes-runs,
}
use os_tools_and_features.LinkedList.Walk.{
  head-rest, Merged, is_sorted-ok, find_end_of_run-ok, inplace_merge-Merged,
}

-- A chain seen from after the elements `zs`.
pub past :
    (ps : List Ptr) (p : Ptr) (zs qs : List Ptr)
    → ps ++ (p ∷ (zs ++ qs)) ≡ (ps ++ init (p ∷ zs)) ++ (last_of p zs ∷ qs)
past ps p zs qs =
    ap (λ w. ps ++ w) (init-last p zs qs)
    ∙ sym (append_assoc ps (init (p ∷ zs)) (last_of p zs ∷ qs))

module _ (less : Ptr → Ptr → Bool) where
  -- The list from `x` on, as its first two runs and the rest.
  one_run :
      (x : Ptr) (xs : List Ptr) (y : Ptr) (ys qs : List Ptr)
      → drop_run less x xs ≡ y ∷ ys
      → xs ++ qs ≡ take_run less x xs ++ (y ∷ (ys ++ qs))
  one_run x xs y ys qs e =
      ap (λ w. w ++ qs) (sym (take-append-drop less x xs))
      ∙ append_assoc (take_run less x xs) (drop_run less x xs) qs
      ∙ ap (λ w. take_run less x xs ++ (w ++ qs)) e

  two_runs :
      (x : Ptr) (xs : List Ptr) (y : Ptr) (ys qs : List Ptr)
      → drop_run less x xs ≡ y ∷ ys
      → xs ++ qs ≡ take_run less x xs ++ (y ∷ (take_run less y ys ++ (drop_run less y ys ++ qs)))
  two_runs x xs y ys qs e =
      one_run x xs y ys qs e
      ∙ ap (λ w. take_run less x xs ++ (y ∷ w))
          (ap (λ w. w ++ qs) (sym (take-append-drop less y ys))
            ∙ append_assoc (take_run less y ys) (drop_run less y ys) qs)

  length_drop_run :
      (x : Ptr) (xs : List Ptr) (y : Ptr) (ys : List Ptr)
      → drop_run less x xs ≡ y ∷ ys
      → length ys < length xs
  length_drop_run x xs y ys e =
      let a : length (take_run less x xs ++ drop_run less x xs) ≡ length xs =
        ap length (take-append-drop less x xs) in
      let d : length (drop_run less x xs) ≡ suc (length ys) = ap length e in
      omega (arith, length-append (take_run less x xs) (drop_run less x xs))

  length_two_runs :
      (x : Ptr) (xs : List Ptr) (y : Ptr) (ys : List Ptr)
      → drop_run less x xs ≡ y ∷ ys
      → length xs
        ≡ length (take_run less x xs)
          + length (y ∷ take_run less y ys)
          + length (drop_run less y ys)
  length_two_runs x xs y ys e =
      let a : length (take_run less x xs ++ drop_run less x xs) ≡ length xs =
        ap length (take-append-drop less x xs) in
      let b : length (take_run less y ys ++ drop_run less y ys) ≡ length ys =
        ap length (take-append-drop less y ys) in
      let d : length (drop_run less x xs) ≡ suc (length ys) = ap length e in
      omega (
        arith,
        length-append (take_run less x xs) (drop_run less x xs),
        length-append (take_run less y ys) (drop_run less y ys),
      )

  whole_run :
      (n : ℕ) (m : Memory) (ps : List Ptr) (p x : Ptr) (xs : List Ptr) (t : Ptr)
      → Chain m (ps ++ (p ∷ x ∷ (xs ++ (t ∷ []))))
      → suc (length xs) < n
      → drop_run less x xs ≡ []
      → find_end_of_run less n x t m ≡ ok t m
  whole_run n m ps p x xs t c h e =
      find_end_of_run-ok less m n (ps ++ (p ∷ [])) x xs t [] (step_on m ps p (x ∷ xs) t [] c)
        (omega arith)
      ∙ ap (λ w. ok (first_or w t) m) e

  -- One turn of the loop, of two runs at least: it merges the first two.
  module _ (n : ℕ) (m : Memory) (ps : List Ptr) (p x : Ptr) (xs : List Ptr) (y : Ptr)
      (ys : List Ptr) (t : Ptr) (c : Chain m (ps ++ (p ∷ x ∷ (xs ++ (t ∷ [])))))
      (h : suc (length xs) < n) (e : drop_run less x xs ≡ y ∷ ys) where
    first_end : find_end_of_run less n x t m ≡ ok y m
    first_end =
        find_end_of_run-ok less m n (ps ++ (p ∷ [])) x xs t [] (step_on m ps p (x ∷ xs) t [] c)
          (omega arith)
        ∙ ap (λ w. ok (first_or w t) m) e

    at_second : Chain m (((ps ++ (p ∷ [])) ++ (x ∷ take_run less x xs)) ++ (y ∷ (ys ++ (t ∷ []))))
    at_second =
        subst (Chain m)
          (sym (append_assoc (ps ++ (p ∷ [])) (x ∷ take_run less x xs) (y ∷ (ys ++ (t ∷ [])))))
          (subst (λ w. Chain m ((ps ++ (p ∷ [])) ++ (x ∷ w))) (one_run x xs y ys (t ∷ []) e)
            (step_on m ps p (x ∷ xs) t [] c))

    not_end : (y == t) ≡ false
    not_end = step_end m ((ps ++ (p ∷ [])) ++ (x ∷ take_run less x xs)) y ys t [] at_second

    second_end : find_end_of_run less n y t m ≡ ok (first_or (drop_run less y ys) t) m
    second_end =
        find_end_of_run-ok less m n ((ps ++ (p ∷ [])) ++ (x ∷ take_run less x xs)) y ys t []
          at_second (omega (arith, length_drop_run x xs y ys e))

    runs-Merged :
        Merged less ps p
          (x ∷ take_run less x xs)
          (y ∷ take_run less y ys)
          (drop_run less y ys ++ (t ∷ []))
          (inplace_merge less n x y (first_or (drop_run less y ys) t) m)
    runs-Merged =
        subst
          (λ w.
            Merged less ps p (x ∷ take_run less x xs) (y ∷ take_run less y ys) w
              (inplace_merge less n x y (first_or (drop_run less y ys) t) m))
          (sym (head-rest (drop_run less y ys) t []))
          (inplace_merge-Merged less n m ps p x (take_run less x xs) y (take_run less y ys)
            (first_or (drop_run less y ys) t) (rest (drop_run less y ys ++ (t ∷ [])))
            (subst (λ w. Chain m (ps ++ (p ∷ x ∷ w)))
              (two_runs x xs y ys (t ∷ []) e
                ∙ ap (λ w. take_run less x xs ++ (y ∷ (take_run less y ys ++ w)))
                    (head-rest (drop_run less y ys) t []))
              c)
            (take_run-Ordered less x xs) (take_run-Ordered less y ys)
            (omega (arith, length_two_runs x xs y ys e)))

  abbrev Passed : List Ptr → Ptr → List Ptr → List Ptr → ℕ → Run ℕ → Type 0
  Passed ps p xs qs cnt r =
      (g : Memory) × (ws : List Ptr) × (n : ℕ) × (r ≡ ok (cnt + n) g)
      × Passes less xs ws n
      × Chain g (ps ++ (p ∷ (ws ++ qs)))

  pass_loop-Passed :
      (k n : ℕ) (m : Memory) (ps : List Ptr) (p : Ptr) (xs : List Ptr) (t : Ptr) (cnt : ℕ)
      → Chain m (ps ++ (p ∷ (xs ++ (t ∷ []))))
      → length xs < k
      → length xs < n
      → Passed ps p xs (t ∷ []) cnt (pass_loop less n k t (first_or xs t) cnt m)
  unfolding pass_loop
  pass_loop-Passed zero n m ps p xs t cnt c h u = absurd (omega arith)
  pass_loop-Passed (suc k) n m ps p [] t cnt c h u =
      (m, [], 0, rw (==_refl t) (ap (λ z. ok z m) (omega arith)), none_left, c)
  pass_loop-Passed (suc k) n m ps p (x ∷ xs) t cnt c h u = elim (List-cases (drop_run less x xs)) [
    | inl e ↦ (
      m,
      (x ∷ xs),
      1,
      rw
          (
            step_end m (ps ++ (p ∷ [])) x xs t [] (step_on m ps p (x ∷ xs) t [] c),
            whole_run n m ps p x xs t c u e,
          )
          (rw (==_refl t) (ap (λ z. ok z m) (omega arith))),
      one_left e,
      c,
    )
    | inr (y, ys, e) ↦
        let (f, zs, r, q, d) = runs-Merged n m ps p x xs y ys t c u e in
        let (g, ws, n', r', a, d') =
          pass_loop-Passed k n f (ps ++ init (p ∷ zs)) (last_of p zs) (drop_run less y ys) t
            (suc cnt) (subst (Chain f) (past ps p zs (drop_run less y ys ++ (t ∷ []))) d)
            (omega (arith, length_two_runs x xs y ys e))
            (omega (arith, length_two_runs x xs y ys e)) in
        (
          g,
          (zs ++ ws),
          suc n',
          rw
              (
                step_end m (ps ++ (p ∷ [])) x xs t [] (step_on m ps p (x ∷ xs) t [] c),
                first_end n m ps p x xs y ys t c u e,
              )
              (rw (not_end n m ps p x xs y ys t c u e, second_end n m ps p x xs y ys t c u e)
                (rw r (r' ∙ ap (λ z. ok z g) (omega arith)))),
          two_merged e q a,
          subst (Chain g)
              (sym (
                ap (λ w. ps ++ (p ∷ w)) (append_assoc zs ws (t ∷ []))
                ∙ past ps p zs (ws ++ (t ∷ []))))
              d',
        )
  ]

  -- A run that returns, and leaves the elements in order.
  abbrev pub SortedBy : Header → List Ptr → Run (Unit {0}) → Type 0
  SortedBy l xs r =
      (g : Memory) × (ys : List Ptr) × (r ≡ ok tt g) × Holds g l ys × Perm ys xs × Ordered less ys

  module _ (asym : (x y : Ptr) → less x y ≡ true → less y x ≡ false) (l : Header) where
    sort_loop-SortedBy :
        (k n : ℕ) (m : Memory) (xs : List Ptr)
        → Holds m l xs
        → runs less xs < k
        → length xs < n
        → SortedBy l xs (sort_loop less n k l m)
    unfolding sort_loop
    sort_loop-SortedBy zero n m xs c h u = absurd (omega arith)
    sort_loop-SortedBy (suc k) n m xs c h u =
        let (f, ws, o, r, a, d) = pass_loop-Passed n n m [] l.head xs l.tail 0 c u u in
        let q = Passes-runs less asym a in
        let v = Passes-half less a in
        elim (Bool-cases (ltb 1 (0 + o))) [
          | inl e ↦
              let (g, ys, r', c', p, w) =
                sort_loop-SortedBy k n f ws d (ground arith)
                  (omega (arith, Perm-length (Passes-Perm less a))) in
              (
                g,
                ys,
                rw (list_begin-ok m l xs c, r) (rw e r'),
                c',
                Perm.trans p (Passes-Perm less a),
                w,
              )
          | inr e ↦ (
            f,
            ws,
            rw (list_begin-ok m l xs c, r) (rw e refl),
            d,
            Passes-Perm less a,
            runs-Ordered less ws (ground arith),
          )
        ]

    -- list_sort(), of a list and an asymmetric comparison, returns: none of its assertions fails. The
    -- list then has the same elements, none less than the one before it.
    pub list_sort-SortedBy :
        (n : ℕ) (m : Memory) (xs : List Ptr)
        → Holds m l xs
        → length xs < n
        → SortedBy l xs (list_sort less n l m)
    unfolding list_sort
    list_sort-SortedBy n m xs c h =
        let (g, ys, r, d, p, o) =
          sort_loop-SortedBy n n m xs c (omega (arith, runs_length less xs)) h in
        (
          g,
          ys,
          rw r (
              rw
                (
                  list_begin-ok g l ys d,
                  is_sorted-ok less g n (l.head ∷ []) ys l.tail [] d o
                      (omega (arith, Perm-length p)),
                )
                refl),
          d,
          p,
          o,
        )
