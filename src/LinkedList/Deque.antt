-- ===== src/LinkedList/Deque.antt =====
-- proj-pregame/src/lib/kernel/list.c: a list between two headers as a sequence of elements.
use os_tools_and_features.Prelude.{
  ℕ, zero, suc, ◌+◌, ◌<◌, ◌≡◌, ◌≢◌, refl, sym, ap, subst, ◌∙◌, List, [], ◌∷◌, ◌++◌, append_assoc,
  length, length-append, ne→==_false, false, ◌==◌, arith,
}
use os_tools_and_features.Threads.{Ptr, null, update}
use os_tools_and_features.Threads.Invariant.{has, has-append}
use os_tools_and_features.LinkedList.{
  Memory, Header, ok, ◌>>◌, list_init, list_begin, list_empty, list_insert, list_push_front,
  list_push_back, list_front, list_back, list_pop_front, list_pop_back, size_loop, list_size,
}
use os_tools_and_features.LinkedList.Chain.{first_or, Chain, last_of, init, init-last, Linked-right}
use os_tools_and_features.LinkedList.Basic.{
  step_end, step_next, step_on, Leaves, list_insert-Leaves, list_remove-Leaves,
}

-- The elements `xs`, with the headers around them.
abbrev pub whole : Header → List Ptr → List Ptr
whole l xs = l.head ∷ (xs ++ (l.tail ∷ []))

abbrev pub Holds : Memory → Header → List Ptr → Type 0
Holds m l xs = Chain m (whole l xs)

module _ (m : Memory) (l : Header) where
  pub list_init-Holds :
      l.head ≢ null → l.tail ≢ null → l.head ≢ l.tail → Leaves tt (whole l []) (list_init l m)
  unfolding list_init
  list_init-Holds a b c = (
    record {
      prev = update (update m.prev l.head null) l.tail l.head;
      next = update (update m.next l.head l.tail) l.tail null;
    },
    rw (ne→==_false l.head null a) (
        rw (ne→==_false l.head null a)
          (rw (ne→==_false l.tail null b) (rw (ne→==_false l.tail null b) refl))),
    record {
      linked = (ground arith, ground arith, tt);
      distinct = (ground arith, (refl, tt));
      nonnull = ground arith;
    },
  )

  pub list_begin-ok : (xs : List Ptr) → Holds m l xs → list_begin l m ≡ ok (first_or xs l.tail) m
  unfolding list_begin
  list_begin-ok [] c = ground (arith, c.nonnull, c.linked)
  list_begin-ok (x ∷ xs) c = ground (arith, c.nonnull, c.linked.0)

  pub list_empty-ok :
      (xs : List Ptr) → Holds m l xs → list_empty l m ≡ ok (first_or xs l.tail == l.tail) m
  unfolding list_empty
  list_empty-ok xs c = rw (list_begin-ok xs c) refl

  head_nonnull : (xs : List Ptr) → Holds m l xs → (l.head == null) ≡ false
  head_nonnull xs c = ground (arith, c.nonnull)

  tail_nonnull : (xs : List Ptr) → Holds m l xs → (l.tail == null) ≡ false
  tail_nonnull xs c = ground (arith, c.nonnull, has-append null xs (l.tail ∷ []))

  pub not_tail : (x : Ptr) (xs : List Ptr) → Holds m l (x ∷ xs) → (x == l.tail) ≡ false
  not_tail x xs c =
      ground
        (arith, c.distinct.1.0, has-append l.tail xs (l.tail ∷ []), has-append x xs (l.tail ∷ []))

  not_empty :
      (xs : List Ptr) (x : Ptr)
      → Holds m l (xs ++ (x ∷ []))
      → (first_or (xs ++ (x ∷ [])) l.tail == l.tail) ≡ false
  not_empty [] x c = not_tail x [] c
  not_empty (y ∷ xs) x c = not_tail y (xs ++ (x ∷ [])) c

  push_front-Holds :
      (xs : List Ptr) (e : Ptr)
      → Holds m l xs
      → e ≢ null
      → has e (whole l xs) ≡ false
      → Leaves tt (whole l (e ∷ xs)) (list_push_front l e m)
  unfolding list_push_front
  push_front-Holds [] e c nz out =
      rw (list_begin-ok [] c) (list_insert-Leaves m [] l.head l.tail [] c e nz out)
  push_front-Holds (x ∷ xs) e c nz out =
      rw (list_begin-ok (x ∷ xs) c)
        (list_insert-Leaves m [] l.head x (xs ++ (l.tail ∷ [])) c e nz out)

  push_back-Holds :
      (xs : List Ptr) (e : Ptr)
      → Holds m l xs
      → e ≢ null
      → has e (whole l xs) ≡ false
      → Leaves tt (whole l (xs ++ (e ∷ []))) (list_push_back l e m)
  unfolding list_push_back
  push_back-Holds xs e c nz out =
      let s = init-last l.head xs (l.tail ∷ []) in
      subst (λ w. Leaves tt w (list_insert l.tail e m))
        (sym (init-last l.head xs (e ∷ l.tail ∷ []))
          ∙ ap (λ z. l.head ∷ z) (sym (append_assoc xs (e ∷ []) (l.tail ∷ []))))
        (list_insert-Leaves m (init (l.head ∷ xs)) (last_of l.head xs) l.tail []
          (subst (Chain m) s c) e nz (subst (λ w. has e w ≡ false) s out))

  pop_front-Holds :
      (x : Ptr) (xs : List Ptr) → Holds m l (x ∷ xs) → Leaves x (whole l xs) (list_pop_front l m)
  unfolding list_pop_front list_front
  pop_front-Holds x [] c =
      let (g, r, k) = list_remove-Leaves m [] l.head x l.tail [] c in
      (
        g,
        rw (list_empty-ok (x ∷ []) c, not_tail x [] c)
            (rw (head_nonnull (x ∷ []) c, c.linked.0, r) refl),
        k,
      )
  pop_front-Holds x (y ∷ ys) c =
      let (g, r, k) = list_remove-Leaves m [] l.head x y (ys ++ (l.tail ∷ [])) c in
      (
        g,
        rw (list_empty-ok (x ∷ y ∷ ys) c, not_tail x (y ∷ ys) c)
            (rw (head_nonnull (x ∷ y ∷ ys) c, c.linked.0, r) refl),
        k,
      )

  pop_back-Holds :
      (xs : List Ptr) (x : Ptr)
      → Holds m l (xs ++ (x ∷ []))
      → Leaves x (whole l xs) (list_pop_back l m)
  unfolding list_pop_back list_back
  pop_back-Holds xs x c =
      let s = init-last l.head xs (x ∷ l.tail ∷ []) in
      let c' : Chain m (init (l.head ∷ xs) ++ (last_of l.head xs ∷ x ∷ l.tail ∷ [])) =
        subst (Chain m) (ap (λ z. l.head ∷ z) (append_assoc xs (x ∷ []) (l.tail ∷ [])) ∙ s) c in
      let k = Linked-right m (init (l.head ∷ xs)) (last_of l.head xs) (x ∷ l.tail ∷ []) c'.linked in
      let (g, r, e) =
        list_remove-Leaves m (init (l.head ∷ xs)) (last_of l.head xs) x l.tail [] c' in
      (
        g,
        rw (list_empty-ok (xs ++ (x ∷ [])) c, not_empty xs x c)
            (rw (tail_nonnull (xs ++ (x ∷ [])) c, k.2.1, r) refl),
        subst (Chain g) (sym (init-last l.head xs (l.tail ∷ []))) e,
      )

  size_loop-ok :
      (k : ℕ) (ps xs : List Ptr) (n : ℕ)
      → Chain m (ps ++ (xs ++ (l.tail ∷ [])))
      → length xs < k
      → size_loop k l.tail (first_or xs l.tail) n m ≡ ok (n + length xs) m
  unfolding size_loop
  size_loop-ok zero ps xs n c h = absurd (omega arith)
  size_loop-ok (suc k) ps [] n c h = ground arith
  size_loop-ok (suc k) ps (x ∷ xs) n c h =
      rw (step_end m ps x xs l.tail [] c, step_next m ps x xs l.tail [] c)
        (size_loop-ok k (ps ++ (x ∷ [])) xs (suc n) (step_on m ps x xs l.tail [] c) (omega arith)
          ∙ ap (λ z. ok z m) (omega arith))

  list_size-ok :
      (k : ℕ) (xs : List Ptr) → Holds m l xs → length xs < k → list_size k l m ≡ ok (length xs) m
  unfolding list_size
  list_size-ok k xs c h =
      rw (list_begin-ok xs c)
        (size_loop-ok k (l.head ∷ []) xs 0 c h ∙ ap (λ z. ok z m) (omega arith))

-- A new element that is pushed at either end of a list stands there, the others in their order;
-- list_size() then counts one more, and popping at the same end returns it and leaves the list as
-- it was.
pub push-pop :
    (m : Memory) (l : Header) (xs : List Ptr) (e : Ptr) (k : ℕ)
    → Holds m l xs
    → e ≢ null
    → has e (whole l xs) ≡ false
    → length xs < k
    → Leaves tt (whole l (e ∷ xs)) (list_push_front l e m)
      × Leaves e (whole l xs) ((list_push_front l e >> list_pop_front l) m)
      × Leaves tt (whole l (xs ++ (e ∷ []))) (list_push_back l e m)
      × Leaves e (whole l xs) ((list_push_back l e >> list_pop_back l) m)
      × Leaves
          (suc (length xs))
          (whole l (xs ++ (e ∷ [])))
          ((list_push_back l e >> list_size (suc k) l) m)
      × Leaves (suc (length xs)) (whole l (e ∷ xs)) ((list_push_front l e >> list_size (suc k) l) m)
push-pop m l xs e k c nz out h =
    let (g, r, d) = push_front-Holds m l xs e c nz out in
    let (f, s, b) = push_back-Holds m l xs e c nz out in
    let (g', r', d') = pop_front-Holds g l e xs d in
    let (f', s', b') = pop_back-Holds f l xs e b in
    (
      (g, r, d),
      (g', rw r r', d'),
      (f, s, b),
      (f', rw s s', b'),
      (
        f,
        rw s (
            list_size-ok f l (suc k) (xs ++ (e ∷ [])) b (omega (arith, length-append xs (e ∷ [])))
            ∙ ap (λ n. ok n f) (omega (arith, length-append xs (e ∷ [])))),
        b,
      ),
      (g, rw r (list_size-ok g l (suc k) (e ∷ xs) d (omega arith)), d),
    )
