-- ===== src/LinkedList/Merge.antt =====
-- What the merges of list_sort() compute, on lists of elements.
use os_tools_and_features.Prelude.{
  ℕ, suc, ◌+◌, ◌≤◌, ◌≡◌, refl, sym, ap, ◌∙◌, subst, append-nil, List, [], ◌∷◌, ◌++◌, length, Bool,
  true, false, arith, if◌then◌else◌,
}
use mathlib.Core.List.{Perm, Permᴰ, perm_middle}
use mathlib.Core.Logic.{∥∥₁_elim}
use native.Mathlib.Nat.{ℕ_set}
use mathlib.Core.List.Perm
use os_tools_and_features.Threads.{Ptr}

Permᴰ-length : {xs ys : List Ptr} → Permᴰ xs ys → length xs ≡ length ys
Permᴰ-length Permᴰ.nil = refl
Permᴰ-length (Permᴰ.cons e d) = ap suc (Permᴰ-length d)
Permᴰ-length (Permᴰ.swap e f) = refl
Permᴰ-length (Permᴰ.trans d e) = Permᴰ-length d ∙ Permᴰ-length e

pub Perm-length : {xs ys : List Ptr} → Perm xs ys → length xs ≡ length ys
Perm-length {xs} {ys} p = ∥∥₁_elim p (ℕ_set (length xs) (length ys)) Permᴰ-length

module _ (less : Ptr → Ptr → Bool) where
  -- No element is less than the one before it.
  abbrev pub Ordered : List Ptr → Type 0
  Ordered [] = Unit
  Ordered (x ∷ []) = Unit
  Ordered (x ∷ y ∷ xs) = (less y x ≡ false) × Ordered (y ∷ xs)

  -- The number of maximal ordered parts.
  abbrev pub runs : List Ptr → ℕ
  runs [] = 0
  runs (x ∷ []) = 1
  runs (x ∷ y ∷ xs) = if less y x then suc (runs (y ∷ xs)) else runs (y ∷ xs)

  -- The stable merge of two lists: of two equal elements, the first list's stands first.
  pub data Merges : List Ptr → List Ptr → List Ptr → Type 0 where
    no_first : {ys : List Ptr} → Merges [] ys ys
    no_second : {xs : List Ptr} → Merges xs [] xs
    first :
        {x y : Ptr} {xs ys zs : List Ptr}
        → less y x ≡ false
        → Merges xs (y ∷ ys) zs
        → Merges (x ∷ xs) (y ∷ ys) (x ∷ zs)
    second :
        {x y : Ptr} {xs ys zs : List Ptr}
        → less y x ≡ true
        → Merges (x ∷ xs) ys zs
        → Merges (x ∷ xs) (y ∷ ys) (y ∷ zs)

  pub Merges-Perm : {xs ys zs : List Ptr} → Merges xs ys zs → Perm zs (xs ++ ys)
  Merges-Perm no_first = Perm.rfl
  Merges-Perm (no_second {xs}) = subst (λ w. Perm xs w) (sym (append-nil xs)) (Perm.refl xs)
  Merges-Perm (first {x = x} e m) = Perm.cons x (Merges-Perm m)
  Merges-Perm (second {x = x} {y = y} {xs = xs} {ys = ys} e m) =
      Perm.trans (Perm.cons y (Merges-Perm m)) (Perm.symm (perm_middle (x ∷ xs) ys))

  pub Ordered-tail : (x : Ptr) (xs : List Ptr) → Ordered (x ∷ xs) → Ordered xs
  Ordered-tail x [] o = tt
  Ordered-tail x (y ∷ xs) o = o.1

  pub runs_pos : (x : Ptr) (xs : List Ptr) → 1 ≤ runs (x ∷ xs)
  runs_pos x [] = omega arith
  runs_pos x (y ∷ xs) = ground (arith, runs_pos y xs)

  pub runs_cons : (x : Ptr) (xs : List Ptr) → runs (x ∷ xs) ≤ suc (runs xs)
  runs_cons x [] = omega arith
  runs_cons x (y ∷ xs) = ground (arith, runs_pos y xs)

  pub runs_length : (xs : List Ptr) → runs xs ≤ length xs
  runs_length [] = omega arith
  runs_length (x ∷ xs) = omega (arith, runs_cons x xs, runs_length xs)

  pub runs-append : (xs ys : List Ptr) → runs (xs ++ ys) ≤ runs xs + runs ys
  runs-append [] ys = omega arith
  runs-append (x ∷ []) ys = omega (arith, runs_cons x ys)
  runs-append (x ∷ y ∷ xs) ys = ground (arith, runs-append (y ∷ xs) ys)

  -- An ordered list has one run at most, and no other list has.
  pub Ordered-runs : (xs : List Ptr) → Ordered xs → runs xs ≤ 1
  Ordered-runs [] o = omega arith
  Ordered-runs (x ∷ []) o = omega arith
  Ordered-runs (x ∷ y ∷ xs) o = rw o.0 (Ordered-runs (y ∷ xs) o.1)

  pub runs-Ordered : (xs : List Ptr) → runs xs ≤ 1 → Ordered xs
  runs-Ordered [] h = tt
  runs-Ordered (x ∷ []) h = tt
  runs-Ordered (x ∷ y ∷ xs) h =
      (ground (arith, runs_pos y xs), runs-Ordered (y ∷ xs) (ground (arith, runs_pos y xs)))

  module _ (asym : (x y : Ptr) → less x y ≡ true → less y x ≡ false) where
    Merges-Ordered_cons :
        (p : Ptr) {xs ys zs : List Ptr}
        → Merges xs ys zs
        → Ordered (p ∷ xs)
        → Ordered (p ∷ ys)
        → Ordered (p ∷ zs)
    Merges-Ordered_cons p no_first o q = q
    Merges-Ordered_cons p no_second o q = o
    Merges-Ordered_cons p (first {x = x} {y = y} e m) o q =
        (o.0, Merges-Ordered_cons x m o.1 (e, q.1))
    Merges-Ordered_cons p (second {x = x} {y = y} e m) o q =
        (q.0, Merges-Ordered_cons y m (asym y x e, o.1) q.1)

    -- The merge of two ordered lists is ordered.
    pub Merges-Ordered :
        {xs ys zs : List Ptr} → Merges xs ys zs → Ordered xs → Ordered ys → Ordered zs
    Merges-Ordered no_first o q = q
    Merges-Ordered no_second o q = o
    Merges-Ordered (first {x = x} {y = y} e m) o q = Merges-Ordered_cons x m o (e, q)
    Merges-Ordered (second {x = x} {y = y} e m) o q = Merges-Ordered_cons y m (asym y x e, o) q
