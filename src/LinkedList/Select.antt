-- ===== src/LinkedList/Select.antt =====
-- proj-pregame/src/lib/kernel/list.c: list_max() and list_min().
use os_tools_and_features.Prelude.{
  ℕ, zero, suc, ◌<◌, ◌≡◌, refl, sym, subst, ◌∙◌, inl, inr, List, [], ◌∷◌, ◌++◌, length, Bool, true,
  false, false≢true, ◌==◌, arith, if◌then◌else◌, Bool-cases, ==_refl, ==_iff,
}
use os_tools_and_features.Threads.{Ptr}
use os_tools_and_features.Threads.Invariant.{has}
use os_tools_and_features.LinkedList.{Memory, Header, ok}
use os_tools_and_features.LinkedList.Chain.{first_or, Chain}
use os_tools_and_features.LinkedList.Basic.{step_end, step_next, step_on}
use os_tools_and_features.LinkedList.Deque.{not_tail, Holds, list_begin-ok}
use os_tools_and_features.LinkedList.Sorting.{max_loop, list_max, min_loop, list_min}

module _ (less : Ptr → Ptr → Bool) where
  abbrev pub max_of : Ptr → List Ptr → Ptr
  max_of a [] = a
  max_of a (x ∷ xs) = max_of (if less a x then x else a) xs

  abbrev pub min_of : Ptr → List Ptr → Ptr
  min_of a [] = a
  min_of a (x ∷ xs) = min_of (if less x a then x else a) xs

  module _ (asym : (x y : Ptr) → less x y ≡ true → less y x ≡ false)
      (trans : (x y z : Ptr) → less x y ≡ true → less y z ≡ true → less x z ≡ true) where
    irrefl : (x : Ptr) → less x x ≡ false
    irrefl x = elim (Bool-cases (less x x)) [ inl e ↦ asym x x e | inr e ↦ e ]

    -- What is not less than the smaller is not less than the greater.
    max_above : (a x y : Ptr) → less a y ≡ false → less (if less a x then x else a) y ≡ false
    max_above a x y h = elim (Bool-cases (less a x)) [
      | inl e ↦ rw e (elim (Bool-cases (less x y)) [
        | inl f ↦ absurd (false≢true (sym h ∙ trans a x y e f))
        | inr f ↦ f
      ])
      | inr e ↦ rw e h
    ]

    min_below : (a x y : Ptr) → less y a ≡ false → less y (if less x a then x else a) ≡ false
    min_below a x y h = elim (Bool-cases (less x a)) [
      | inl e ↦ rw e (elim (Bool-cases (less y x)) [
        | inl f ↦ absurd (false≢true (sym h ∙ trans y x a f e))
        | inr f ↦ f
      ])
      | inr e ↦ rw e h
    ]

    max_of-above :
        (a : Ptr) (xs : List Ptr) (y : Ptr) → less a y ≡ false → less (max_of a xs) y ≡ false
    max_of-above a [] y h = h
    max_of-above a (x ∷ xs) y h = max_of-above (if less a x then x else a) xs y (max_above a x y h)

    min_of-below :
        (a : Ptr) (xs : List Ptr) (y : Ptr) → less y a ≡ false → less y (min_of a xs) ≡ false
    min_of-below a [] y h = h
    min_of-below a (x ∷ xs) y h = min_of-below (if less x a then x else a) xs y (min_below a x y h)

    max_second : (a x : Ptr) → less (if less a x then x else a) x ≡ false
    max_second a x = elim (Bool-cases (less a x)) [ inl e ↦ rw e (irrefl x) | inr e ↦ rw e e ]

    min_second : (a x : Ptr) → less x (if less x a then x else a) ≡ false
    min_second a x = elim (Bool-cases (less x a)) [ inl e ↦ rw e (irrefl x) | inr e ↦ rw e e ]

    pub max_of-greatest :
        (a : Ptr) (xs : List Ptr) (y : Ptr) → has y (a ∷ xs) ≡ true → less (max_of a xs) y ≡ false
    max_of-greatest a xs y h = elim (Bool-cases (a == y)) [
      | inl e ↦ max_of-above a xs y (subst (λ z. less a z ≡ false) ((==_iff a y).0 e) (irrefl a))
      | inr e ↦ later a xs (ground (arith, h))
    ]
      where
        later : (b : Ptr) (ys : List Ptr) → has y ys ≡ true → less (max_of b ys) y ≡ false
        later b [] g = absurd (false≢true g)
        later b (x ∷ ys) g = elim (Bool-cases (x == y)) [
          | inl e ↦ max_of-above (if less b x then x else b) ys y (
              subst (λ z. less (if less b x then x else b) z ≡ false) ((==_iff x y).0 e)
                (max_second b x))
          | inr e ↦ later (if less b x then x else b) ys (ground (arith, g))
        ]

    pub min_of-least :
        (a : Ptr) (xs : List Ptr) (y : Ptr) → has y (a ∷ xs) ≡ true → less y (min_of a xs) ≡ false
    min_of-least a xs y h = elim (Bool-cases (a == y)) [
      | inl e ↦ min_of-below a xs y (subst (λ z. less z a ≡ false) ((==_iff a y).0 e) (irrefl a))
      | inr e ↦ later a xs (ground (arith, h))
    ]
      where
        later : (b : Ptr) (ys : List Ptr) → has y ys ≡ true → less y (min_of b ys) ≡ false
        later b [] g = absurd (false≢true g)
        later b (x ∷ ys) g = elim (Bool-cases (x == y)) [
          | inl e ↦ min_of-below (if less x b then x else b) ys y (
              subst (λ z. less z (if less x b then x else b) ≡ false) ((==_iff x y).0 e)
                (min_second b x))
          | inr e ↦ later (if less x b then x else b) ys (ground (arith, g))
        ]

  has-if :
      (b : Bool) (a x : Ptr) (xs : List Ptr) (y : Ptr)
      → has y ((if b then x else a) ∷ xs) ≡ true
      → has y (a ∷ x ∷ xs) ≡ true
  has-if true a x xs y h = ground arith
  has-if false a x xs y h = ground arith

  has-max_of : (a : Ptr) (xs : List Ptr) → has (max_of a xs) (a ∷ xs) ≡ true
  has-max_of a [] = ground arith
  has-max_of a (x ∷ xs) =
      has-if (less a x) a x xs (max_of (if less a x then x else a) xs)
        (has-max_of (if less a x then x else a) xs)

  has-min_of : (a : Ptr) (xs : List Ptr) → has (min_of a xs) (a ∷ xs) ≡ true
  has-min_of a [] = ground arith
  has-min_of a (x ∷ xs) =
      has-if (less x a) a x xs (min_of (if less x a then x else a) xs)
        (has-min_of (if less x a then x else a) xs)

  module _ (m : Memory) where
    max_loop-ok :
        (k : ℕ) (ps xs : List Ptr) (t a : Ptr)
        → Chain m (ps ++ (xs ++ (t ∷ [])))
        → length xs < k
        → max_loop less k t (first_or xs t) a m ≡ ok (max_of a xs) m
    unfolding max_loop
    max_loop-ok zero ps xs t a c h = absurd (omega arith)
    max_loop-ok (suc k) ps [] t a c h = rw (==_refl t) refl
    max_loop-ok (suc k) ps (x ∷ xs) t a c h =
        rw (step_end m ps x xs t [] c, step_next m ps x xs t [] c)
          (max_loop-ok k (ps ++ (x ∷ [])) xs t (if less a x then x else a)
            (step_on m ps x xs t [] c) (omega arith))

    min_loop-ok :
        (k : ℕ) (ps xs : List Ptr) (t a : Ptr)
        → Chain m (ps ++ (xs ++ (t ∷ [])))
        → length xs < k
        → min_loop less k t (first_or xs t) a m ≡ ok (min_of a xs) m
    unfolding min_loop
    min_loop-ok zero ps xs t a c h = absurd (omega arith)
    min_loop-ok (suc k) ps [] t a c h = rw (==_refl t) refl
    min_loop-ok (suc k) ps (x ∷ xs) t a c h =
        rw (step_end m ps x xs t [] c, step_next m ps x xs t [] c)
          (min_loop-ok k (ps ++ (x ∷ [])) xs t (if less x a then x else a)
            (step_on m ps x xs t [] c) (omega arith))

    pub list_max-ok :
        (k : ℕ) (l : Header) (x : Ptr) (xs : List Ptr)
        → Holds m l (x ∷ xs)
        → length xs < k
        → list_max less k l m ≡ ok (max_of x xs) m
    unfolding list_max
    list_max-ok k l x xs c h =
        rw (list_begin-ok m l (x ∷ xs) c, not_tail m l x xs c)
          (rw (step_next m (l.head ∷ []) x xs l.tail [] c)
            (max_loop-ok k (l.head ∷ x ∷ []) xs l.tail x c h))

    pub list_min-ok :
        (k : ℕ) (l : Header) (x : Ptr) (xs : List Ptr)
        → Holds m l (x ∷ xs)
        → length xs < k
        → list_min less k l m ≡ ok (min_of x xs) m
    unfolding list_min
    list_min-ok k l x xs c h =
        rw (list_begin-ok m l (x ∷ xs) c, not_tail m l x xs c)
          (rw (step_next m (l.head ∷ []) x xs l.tail [] c)
            (min_loop-ok k (l.head ∷ x ∷ []) xs l.tail x c h))

-- list_max() and list_min() of a list with elements return one of them, and change nothing: no
-- element is greater than the first, and none is less than the second. The comparison is
-- asymmetric and transitive.
pub list_max-list_min :
    (less : Ptr → Ptr → Bool)
    → ((x y : Ptr) → less x y ≡ true → less y x ≡ false)
    → ((x y z : Ptr) → less x y ≡ true → less y z ≡ true → less x z ≡ true)
    → (k : ℕ) (m : Memory) (l : Header) (x : Ptr) (xs : List Ptr) (y : Ptr) → Holds m l (x ∷ xs)
    → length xs < k
    → has y (x ∷ xs) ≡ true
    → ((a : Ptr) × (list_max less k l m ≡ ok a m) × (has a (x ∷ xs) ≡ true) × (less a y ≡ false))
      × ((a : Ptr) × (list_min less k l m ≡ ok a m) × (has a (x ∷ xs) ≡ true) × (less y a ≡ false))
list_max-list_min less asym trans k m l x xs y c h i = (
  (
    max_of less x xs,
    list_max-ok less m k l x xs c h,
    has-max_of less x xs,
    max_of-greatest less asym trans x xs y i,
  ),
  (
    min_of less x xs,
    list_min-ok less m k l x xs c h,
    has-min_of less x xs,
    min_of-least less asym trans x xs y i,
  ),
)
