-- ===== src/LinkedList/Insert.antt =====
-- proj-pregame/src/lib/kernel/list.c: list_insert_ordered() and list_unique().
use os_tools_and_features.Prelude.{
  ℕ, zero, suc, ◌<◌, ◌≡◌, ◌≢◌, refl, sym, ap, subst, ◌∙◌, inl, inr, List, [], ◌∷◌, ◌++◌,
  append_assoc, length, Bool, true, false, not, ◌&&◌, arith, if◌then◌else◌, Bool-cases, none,
  ne→==_false, ==_refl,
}
use os_tools_and_features.Threads.{Ptr, null}
use os_tools_and_features.Threads.Invariant.{has}
use os_tools_and_features.LinkedList.{Memory, Header, ok}
use os_tools_and_features.LinkedList.Chain.{first_or, rest, last_of, init, Chain}
use os_tools_and_features.LinkedList.Basic.{
  Leaves, list_insert-Leaves, list_remove-Leaves, step_end, step_next, step_on,
}
use os_tools_and_features.LinkedList.Deque.{whole, Holds, list_begin-ok, list_empty-ok, not_tail}
use os_tools_and_features.LinkedList.Sorting.{
  ordered_loop, list_insert_ordered, unique_loop, push_duplicate, list_unique,
}
use os_tools_and_features.LinkedList.Merge.{Ordered}
use os_tools_and_features.LinkedList.Walk.{head-rest}
use os_tools_and_features.LinkedList.Sort.{past}

module _ (less : Ptr → Ptr → Bool) where
  -- The elements before the first one that `e` is less than, and the others.
  abbrev before : Ptr → List Ptr → List Ptr
  before e [] = []
  before e (x ∷ xs) = if less e x then [] else x ∷ before e xs

  abbrev from : Ptr → List Ptr → List Ptr
  from e [] = []
  from e (x ∷ xs) = if less e x then x ∷ xs else from e xs

  abbrev pub placed : Ptr → List Ptr → List Ptr
  placed e [] = e ∷ []
  placed e (x ∷ xs) = if less e x then e ∷ x ∷ xs else x ∷ placed e xs

  halves : (e : Ptr) (xs qs : List Ptr) → xs ++ qs ≡ before e xs ++ (from e xs ++ qs)
  halves e [] qs = refl
  halves e (x ∷ xs) qs = elim (Bool-cases (less e x)) [
    | inl h ↦ rw h refl
    | inr h ↦ rw h (ap (λ w. x ∷ w) (halves e xs qs))
  ]

  placed-halves :
      (e : Ptr) (xs qs : List Ptr) → before e xs ++ (e ∷ (from e xs ++ qs)) ≡ placed e xs ++ qs
  placed-halves e [] qs = refl
  placed-halves e (x ∷ xs) qs = elim (Bool-cases (less e x)) [
    | inl h ↦ rw h refl
    | inr h ↦ rw h (ap (λ w. x ∷ w) (placed-halves e xs qs))
  ]

  ordered_loop-ok :
      (k : ℕ) (m : Memory) (ps xs : List Ptr) (t e : Ptr)
      → Chain m (ps ++ (xs ++ (t ∷ [])))
      → length xs < k
      → ordered_loop less k t e (first_or xs t) m ≡ ok (first_or (from e xs) t) m
  unfolding ordered_loop
  ordered_loop-ok zero m ps xs t e c h = absurd (omega arith)
  ordered_loop-ok (suc k) m ps [] t e c h = rw (==_refl t) refl
  ordered_loop-ok (suc k) m ps (x ∷ xs) t e c h =
      rw (step_end m ps x xs t [] c) (elim (Bool-cases (less e x)) [
        | inl f ↦ rw f refl
        | inr f ↦
            rw (f, step_next m ps x xs t [] c)
              (ordered_loop-ok k m (ps ++ (x ∷ [])) xs t e (step_on m ps x xs t [] c) (omega arith))
      ])

  module _ (m : Memory) (l : Header) where
    pub list_insert_ordered-placed :
        (k : ℕ) (xs : List Ptr) (e : Ptr)
        → Holds m l xs
        → e ≢ null
        → has e (whole l xs) ≡ false
        → length xs < k
        → Leaves tt (whole l (placed e xs)) (list_insert_ordered less k l e m)
    unfolding list_insert_ordered
    list_insert_ordered-placed k xs e c nz out h =
        let t = l.tail in
        let ps = init (l.head ∷ before e xs) in
        let p = last_of l.head (before e xs) in
        let eq : whole l xs ≡ ps ++ (p ∷ first_or (from e xs) t ∷ rest (from e xs ++ (t ∷ []))) =
          ap (λ w. l.head ∷ w) (halves e xs (t ∷ []))
          ∙ past [] l.head (before e xs) (from e xs ++ (t ∷ []))
          ∙ ap (λ w. ps ++ (p ∷ w)) (head-rest (from e xs) t []) in
        let (g, r, c') =
          list_insert-Leaves m ps p (first_or (from e xs) t) (rest (from e xs ++ (t ∷ [])))
            (subst (Chain m) eq c) e nz (subst (λ w. has e w ≡ false) eq out) in
        (
          g,
          rw (ne→==_false e null nz, list_begin-ok m l xs c)
              (rw (ordered_loop-ok k m (l.head ∷ []) xs t e c h) r),
          subst (Chain g)
              (ap (λ w. ps ++ (p ∷ e ∷ w)) (sym (head-rest (from e xs) t []))
                ∙ sym (past [] l.head (before e xs) (e ∷ (from e xs ++ (t ∷ []))))
                ∙ ap (λ w. l.head ∷ w) (placed-halves e xs (t ∷ [])))
              c',
        )

  abbrev pub same : Ptr → Ptr → Bool
  same x y = not (less x y) && not (less y x)

  -- `xs`, less each element that is the same as the last one kept, which is `x` first.
  abbrev pub uniques : Ptr → List Ptr → List Ptr
  uniques x [] = []
  uniques x (y ∷ ys) = if same x y then uniques x ys else y ∷ uniques y ys

  abbrev pub unique : List Ptr → List Ptr
  unique [] = []
  unique (x ∷ xs) = x ∷ uniques x xs

  unique_loop-uniques :
      (k : ℕ) (m : Memory) (ps : List Ptr) (x : Ptr) (xs : List Ptr) (t : Ptr)
      → Chain m (ps ++ (x ∷ (xs ++ (t ∷ []))))
      → length xs < k
      → Leaves tt (ps ++ (x ∷ (uniques x xs ++ (t ∷ [])))) (unique_loop less k none t x m)
  unfolding unique_loop push_duplicate
  unique_loop-uniques zero m ps x xs t c h = absurd (omega arith)
  unique_loop-uniques (suc k) m ps x [] t c h =
      (m, rw (step_next m ps x [] t [] c, ==_refl t) refl, c)
  unique_loop-uniques (suc k) m ps x (y ∷ ys) t c h =
      let c' = step_on m ps x (y ∷ ys) t [] c in
      let s = step_next m ps x (y ∷ ys) t [] c in
      let z = step_end m (ps ++ (x ∷ [])) y ys t [] c' in
      elim (Bool-cases (same x y)) [
        | inl e ↦
            let (f, r, d) =
              list_remove-Leaves m ps x y (first_or ys t) (rest (ys ++ (t ∷ [])))
                (subst (λ w. Chain m (ps ++ (x ∷ y ∷ w))) (head-rest ys t []) c) in
            let (g, r', d') =
              unique_loop-uniques k f ps x ys t
                (subst (λ w. Chain f (ps ++ (x ∷ w))) (sym (head-rest ys t [])) d) (omega arith) in
            (g, rw (s, z, e) (rw r r'), rw e d')
        | inr e ↦
            let (g, r, d) = unique_loop-uniques k m (ps ++ (x ∷ [])) y ys t c' (omega arith) in
            (
              g,
              rw (s, z, e) r,
              rw e (subst (Chain g) (append_assoc ps (x ∷ []) (y ∷ (uniques y ys ++ (t ∷ [])))) d),
            )
      ]

  module _ (m : Memory) (l : Header) where
    pub list_unique-unique :
        (k : ℕ) (xs : List Ptr)
        → Holds m l xs
        → length xs < k
        → Leaves tt (whole l (unique xs)) (list_unique less k l none m)
    unfolding list_unique
    list_unique-unique k [] c h = (m, rw (list_empty-ok m l [] c, ==_refl l.tail) refl, c)
    list_unique-unique k (x ∷ xs) c h =
        let (g, r, d) = unique_loop-uniques k m (l.head ∷ []) x xs l.tail c (omega arith) in
        (
          g,
          rw (list_empty-ok m l (x ∷ xs) c, not_tail m l x xs c)
              (rw (list_begin-ok m l (x ∷ xs) c) r),
          d,
        )

  -- No element is the same as the one before it.
  abbrev pub Differs : List Ptr → Type 0
  Differs [] = Unit
  Differs (x ∷ []) = Unit
  Differs (x ∷ y ∷ xs) = (same x y ≡ false) × Differs (y ∷ xs)

  uniques-Differs : (x : Ptr) (xs : List Ptr) → Differs (x ∷ uniques x xs)
  uniques-Differs x [] = tt
  uniques-Differs x (y ∷ ys) = elim (Bool-cases (same x y)) [
    | inl e ↦ rw e (uniques-Differs x ys)
    | inr e ↦ rw e (e, uniques-Differs y ys)
  ]

  pub unique-Differs : (xs : List Ptr) → Differs (unique xs)
  unique-Differs [] = tt
  unique-Differs (x ∷ xs) = uniques-Differs x xs

  module _ (asym : (x y : Ptr) → less x y ≡ true → less y x ≡ false) where
    placed-Ordered_cons :
        (p e : Ptr) (xs : List Ptr)
        → less e p ≡ false
        → Ordered less (p ∷ xs)
        → Ordered less (p ∷ placed e xs)
    placed-Ordered_cons p e [] n o = (n, tt)
    placed-Ordered_cons p e (x ∷ xs) n o = elim (Bool-cases (less e x)) [
      | inl h ↦ rw h (n, (asym e x h, o.1))
      | inr h ↦ rw h (o.0, placed-Ordered_cons x e xs h o.1)
    ]

    pub placed-Ordered : (e : Ptr) (xs : List Ptr) → Ordered less xs → Ordered less (placed e xs)
    placed-Ordered e [] o = tt
    placed-Ordered e (x ∷ xs) o = elim (Bool-cases (less e x)) [
      | inl h ↦ rw h (asym e x h, o)
      | inr h ↦ rw h (placed-Ordered_cons x e xs h o)
    ]

-- list_insert_ordered() of a new element into a list in order, under an asymmetric comparison,
-- returns, and leaves the list with the element in its place: before the first element that it is
-- less than. The list is still in order.
pub list_insert_ordered-Ordered :
    (less : Ptr → Ptr → Bool)
    → ((x y : Ptr) → less x y ≡ true → less y x ≡ false)
    → (k : ℕ) (m : Memory) (l : Header) (xs : List Ptr) (e : Ptr) → Holds m l xs
    → Ordered less xs
    → e ≢ null
    → has e (whole l xs) ≡ false
    → length xs < k
    → Leaves tt (whole l (placed less e xs)) (list_insert_ordered less k l e m)
      × Ordered less (placed less e xs)
list_insert_ordered-Ordered less asym k m l xs e c o nz out h =
    (list_insert_ordered-placed less m l k xs e c nz out h, placed-Ordered less asym e xs o)

-- list_unique() with a null DUPLICATES returns, and leaves of each row of neighbours that compare as the same only the
-- first: no element that is left is the same as the one before it.
pub list_unique-Differs :
    (less : Ptr → Ptr → Bool) (k : ℕ) (m : Memory) (l : Header) (xs : List Ptr)
    → Holds m l xs
    → length xs < k
    → Leaves tt (whole l (unique less xs)) (list_unique less k l none m)
      × Differs less (unique less xs)
list_unique-Differs less k m l xs c h =
    (list_unique-unique less m l k xs c h, unique-Differs less xs)
