-- ===== src/LinkedList/Passes.antt =====
-- What one pass of list_sort() computes, on lists of elements: it merges the runs two by two.
use os_tools_and_features.Prelude.{
  ℕ, suc, ◌*◌, ◌≤◌, ◌≡◌, refl, sym, ap, subst, List, [], ◌∷◌, ◌++◌, Bool, true, false, arith,
  if◌then◌else◌, Bool-cases, inl, inr, append_assoc, ◌∙◌,
}
use mathlib.Core.List.{Perm}
use mathlib.Core.List.Perm
use os_tools_and_features.Threads.{Ptr}
use os_tools_and_features.LinkedList.Merge.{
  Ordered, runs, Merges, Merges-Perm, Merges-Ordered, Ordered-runs, runs-append,
}

module _ (less : Ptr → Ptr → Bool) where
  -- The rest of the run that begins with `x`, and what follows it.
  abbrev pub take_run : Ptr → List Ptr → List Ptr
  take_run x [] = []
  take_run x (y ∷ ys) = if less y x then [] else y ∷ take_run y ys

  abbrev pub drop_run : Ptr → List Ptr → List Ptr
  drop_run x [] = []
  drop_run x (y ∷ ys) = if less y x then y ∷ ys else drop_run y ys

  -- A pass over the first list gives the second, in so many runs.
  pub data Passes : List Ptr → List Ptr → ℕ → Type 0 where
    none_left : Passes [] [] 0
    one_left : {x : Ptr} {xs : List Ptr} → drop_run x xs ≡ [] → Passes (x ∷ xs) (x ∷ xs) 1
    two_merged :
        {x y : Ptr} {xs ys zs ws : List Ptr} {n : ℕ}
        → drop_run x xs ≡ y ∷ ys
        → Merges less (x ∷ take_run x xs) (y ∷ take_run y ys) zs
        → Passes (drop_run y ys) ws n
        → Passes (x ∷ xs) (zs ++ ws) (suc n)

  pub take-append-drop : (x : Ptr) (xs : List Ptr) → take_run x xs ++ drop_run x xs ≡ xs
  take-append-drop x [] = refl
  take-append-drop x (y ∷ ys) = elim (Bool-cases (less y x)) [
    | inl e ↦ rw e refl
    | inr e ↦ rw e (ap (λ z. y ∷ z) (take-append-drop y ys))
  ]

  pub take_run-Ordered : (x : Ptr) (xs : List Ptr) → Ordered less (x ∷ take_run x xs)
  take_run-Ordered x [] = tt
  take_run-Ordered x (y ∷ ys) = elim (Bool-cases (less y x)) [
    | inl e ↦ rw e tt
    | inr e ↦ rw e (e, take_run-Ordered y ys)
  ]

  pub runs-drop_run :
      (x : Ptr) (xs : List Ptr) → runs less (x ∷ xs) ≡ suc (runs less (drop_run x xs))
  runs-drop_run x [] = refl
  runs-drop_run x (y ∷ ys) = elim (Bool-cases (less y x)) [
    | inl e ↦ rw e refl
    | inr e ↦ rw e (runs-drop_run y ys)
  ]

  pub Passes-Perm : {xs ys : List Ptr} {n : ℕ} → Passes xs ys n → Perm ys xs
  Passes-Perm none_left = Perm.nil
  Passes-Perm (one_left e) = Perm.rfl
  Passes-Perm (two_merged {x = x} {y = y} {xs = xs} {ys = ys} {zs = zs} {ws = ws} e m p) =
      subst (λ w. Perm (zs ++ ws) w)
        (append_assoc (x ∷ take_run x xs) (y ∷ take_run y ys) (drop_run y ys)
          ∙ ap (λ w. x ∷ (take_run x xs ++ w)) (ap (λ w. y ∷ w) (take-append-drop y ys) ∙ sym e)
          ∙ ap (λ w. x ∷ w) (take-append-drop x xs))
        (Perm.append (Merges-Perm less m) (Passes-Perm p))

  -- The result has no more runs than the pass put out, and these are half of what it read.
  pub Passes-half : {xs ys : List Ptr} {n : ℕ} → Passes xs ys n → 2 * n ≤ suc (runs less xs)
  Passes-half none_left = omega arith
  Passes-half (one_left {x = x} {xs = xs} e) = omega (arith, runs-drop_run x xs)
  Passes-half (two_merged {x = x} {y = y} {xs = xs} {ys = ys} {n = n} e m p) =
      let h = runs-drop_run x xs in
      let k : runs less (drop_run x xs) ≡ suc (runs less (drop_run y ys)) =
        rw e (runs-drop_run y ys) in
      omega (arith, Passes-half p)

  pub Passes-runs :
      ((x y : Ptr) → less x y ≡ true → less y x ≡ false)
      → {xs ys : List Ptr} {n : ℕ} → Passes xs ys n
      → runs less ys ≤ n
  Passes-runs a none_left = omega arith
  Passes-runs a (one_left {x = x} {xs = xs} e) =
      let k : runs less (drop_run x xs) ≡ 0 = rw e refl in omega (arith, runs-drop_run x xs)
  Passes-runs a (two_merged {x = x} {y = y} {xs = xs} {ys = ys} {zs = zs} {ws = ws} e m p) = omega (
    arith,
    runs-append less zs ws,
    Passes-runs a p,
    Ordered-runs less zs (Merges-Ordered less a m (take_run-Ordered x xs) (take_run-Ordered y ys)),
  )
