-- ===== src/LinkedList/Reverse.antt =====
-- proj-pregame/src/lib/kernel/list.c: list_reverse().
use os_tools_and_features.Prelude.{
  ℕ, zero, suc, ◌<◌, ◌≡◌, refl, sym, ap, subst, ◌∙◌, inl, inr, List, [], ◌∷◌, ◌++◌, length, true,
  false, false≢true, ◌==◌, ◌||◌, arith, if◌then◌else◌, Bool-cases, ==_refl, ==_iff,
}
use os_tools_and_features.Threads.{Ptr, null, update}
use os_tools_and_features.Threads.Invariant.{has, has-append, Distinct}
use os_tools_and_features.LinkedList.{
  Memory, Header, ok, swap_links, reverse_loop, swap_ends, list_reverse,
}
use os_tools_and_features.LinkedList.Chain.{
  Linked-init, Linked, Chain, first_or, last_of, init, Linked-frame, has-init, has-rest,
  has-last_of, init-last_of, Distinct-append,
}
use os_tools_and_features.LinkedList.Basic.{Leaves}
use os_tools_and_features.LinkedList.Deque.{whole, Holds, list_begin-ok, list_empty-ok, not_tail}

abbrev flip : Ptr → Memory → Memory
flip x m = record { prev = update m.prev x (m.next x); next = update m.next x (m.prev x) }

abbrev flips : List Ptr → Memory → Memory
flips [] m = m
flips (x ∷ xs) m = flips xs (flip x m)

flips-next :
    (xs : List Ptr) (m : Memory) (y : Ptr)
    → Distinct xs
    → (flips xs m).next y ≡ (if has y xs then m.prev y else m.next y)
flips-next [] m y d = refl
flips-next (x ∷ xs) m y d = flips-next xs (flip x m) y d.1 ∙ ground (arith, d.0)

flips-prev :
    (xs : List Ptr) (m : Memory) (y : Ptr)
    → Distinct xs
    → (flips xs m).prev y ≡ (if has y xs then m.next y else m.prev y)
flips-prev [] m y d = refl
flips-prev (x ∷ xs) m y d = flips-prev xs (flip x m) y d.1 ∙ ground (arith, d.0)

Linked-tail : (m : Memory) (x : Ptr) (w : List Ptr) → Linked m (x ∷ w) → Linked m w
Linked-tail m x [] l = tt
Linked-tail m x (y ∷ w) l = l.2

Linked-first :
    (m : Memory) (x : Ptr) (xs : List Ptr) (t : Ptr)
    → Linked m (x ∷ (xs ++ (t ∷ [])))
    → m.next x ≡ first_or xs t
Linked-first m x [] t l = l.0
Linked-first m x (y ∷ xs) t l = l.0

reverse_loop-flips :
    (k : ℕ) (xs : List Ptr) (t : Ptr) (m : Memory)
    → Linked m (xs ++ (t ∷ []))
    → Distinct (xs ++ (t ∷ []))
    → has null xs ≡ false
    → length xs < k
    → reverse_loop k t (first_or xs t) m ≡ ok tt (flips xs m)
unfolding reverse_loop swap_links
reverse_loop-flips zero xs t m l d n h = absurd (omega arith)
reverse_loop-flips (suc k) [] t m l d n h = rw (==_refl t) refl
reverse_loop-flips (suc k) (x ∷ xs) t m l d n h =
    let x_t : (x == t) ≡ false =
      ground (arith, d.0, has-append t xs (t ∷ []), has-append x xs (t ∷ [])) in
    let x_0 : (x == null) ≡ false = ground (arith, n) in
    let e : m.next x ≡ first_or xs t = Linked-first m x xs t l in
    let ih =
      reverse_loop-flips k xs t (flip x m)
        (Linked-frame m (flip x m) (xs ++ (t ∷ [])) (Linked-tail m x (xs ++ (t ∷ [])) l)
          (λ y i. ground (arith, d.0, has-init y (xs ++ (t ∷ [])) i))
          (λ y i. ground (arith, d.0, has-rest y (xs ++ (t ∷ [])) i)))
        d.1 (ground (arith, n)) (omega arith) in
    rw (x_t, x_0)
      (rw x_0 (
        rw x_0 (
          rw x_0 (
            rw x_0 (
              rw (==_refl x) (
                subst (λ q. reverse_loop k t q (flip x m) ≡ ok tt (flips xs (flip x m))) (sym e)
                  ih))))))

-- The elements in the other order, before `w`.
abbrev pub reversed : List Ptr → List Ptr → List Ptr
reversed [] w = w
reversed (x ∷ xs) w = reversed xs (x ∷ w)

-- Each element of the list is linked with the one before it.
abbrev Back : Memory → List Ptr → Type 0
Back g [] = Unit
Back g (a ∷ []) = Unit
Back g (a ∷ b ∷ xs) = (g.next b ≡ a) × (g.prev a ≡ b) × Back g (b ∷ xs)

Back-reversed :
    (g : Memory) (a : Ptr) (xs w : List Ptr)
    → Back g (a ∷ xs)
    → Linked g (a ∷ w)
    → Linked g (reversed xs (a ∷ w))
Back-reversed g a [] w b l = l
Back-reversed g a (x ∷ xs) w b l = Back-reversed g x xs (a ∷ w) b.2 (b.0, b.1, l)

has-reversed : (y : Ptr) (xs w : List Ptr) → has y (reversed xs w) ≡ (has y xs || has y w)
has-reversed y [] w = refl
has-reversed y (x ∷ xs) w = ground (arith, has-reversed y xs (x ∷ w))

reversed-Distinct :
    (xs w : List Ptr)
    → Distinct xs
    → Distinct w
    → ((y : Ptr) → has y xs ≡ true → has y w ≡ false)
    → Distinct (reversed xs w)
reversed-Distinct [] w d e h = e
reversed-Distinct (x ∷ xs) w d e h =
    reversed-Distinct xs (x ∷ w) d.1 (h x (ground arith), e) (λ y i. ground (arith, d.0, h y))

reversed-snoc :
    (xs : List Ptr) (h : Ptr) (w : List Ptr) → reversed (xs ++ (h ∷ [])) w ≡ h ∷ reversed xs w
reversed-snoc [] h w = refl
reversed-snoc (x ∷ xs) h w = reversed-snoc xs h (x ∷ w)

reversed-append : (xs v w : List Ptr) → reversed xs (v ++ w) ≡ reversed xs v ++ w
reversed-append [] v w = refl
reversed-append (x ∷ xs) v w = reversed-append xs (x ∷ v) w

-- The pairs of neighbours of a list whose inner links are turned around.
Back-flipped :
    (m g : Memory) (x : Ptr) (xs : List Ptr) (h : Ptr)
    → Linked m (x ∷ xs)
    → ((y : Ptr) → has y (init (x ∷ xs)) ≡ true → g.prev y ≡ m.next y)
    → ((y : Ptr) → has y xs ≡ true → g.next y ≡ m.prev y)
    → g.prev (last_of x xs) ≡ h
    → g.next h ≡ last_of x xs
    → Back g (x ∷ (xs ++ (h ∷ [])))
Back-flipped m g x [] h l p n a b = (b, a, tt)
Back-flipped m g x (y ∷ xs) h l p n a b = (
  n y (ground arith) ∙ l.1,
  p x (ground arith) ∙ l.0,
  Back-flipped m g y xs h l.2 (λ z i. p z (ground arith)) (λ z i. n z (ground arith)) a b,
)

abbrev ended : Memory → Header → Ptr → Ptr → Memory
ended f l x z = record {
  prev = update (update f.prev l.tail x) z l.head;
  next = update (update f.next l.head z) x l.tail;
}

swap_ends-ok :
    (f : Memory) (l : Header) (x z : Ptr)
    → has null (l.head ∷ x ∷ z ∷ l.tail ∷ []) ≡ false
    → f.next l.head ≡ x
    → f.prev l.tail ≡ z
    → f.prev z ≡ l.tail
    → f.next x ≡ l.head
    → (l.tail == z) ≡ false
    → (l.head == x) ≡ false
    → swap_ends l f ≡ ok tt (ended f l x z)
unfolding swap_ends
swap_ends-ok f l x z n nh pt pz nx tz hx =
    let h0 : (l.head == null) ≡ false = ground (arith, n) in
    let t0 : (l.tail == null) ≡ false = ground (arith, n) in
    let x0 : (x == null) ≡ false = ground (arith, n) in
    let z0 : (z == null) ≡ false = ground (arith, n) in
    rw (h0, nh)
      (rw (t0, pt)
        (rw h0 (
          rw t0 (
            rw (h0, ==_refl l.head)
              (rw (t0, ==_refl l.tail) (rw (z0, tz, pz) (rw (x0, hx, nx) (rw z0 (rw x0 refl)))))))))

differ : (w y : Ptr) (xs : List Ptr) → has w xs ≡ false → has y xs ≡ true → (w == y) ≡ false
differ w y xs n h = elim (Bool-cases (w == y)) [
  | inl e ↦ absurd (false≢true (sym n ∙ subst (λ v. has v xs ≡ true) (sym ((==_iff w y).0 e)) h))
  | inr e ↦ e
]

module _ (m : Memory) (l : Header) where
  -- list_reverse() of a list returns, when its loop has more rounds than there are elements, and leaves
  -- the elements in the other order.
  pub list_reverse-reversed :
      (k : ℕ) (xs : List Ptr)
      → Holds m l xs
      → length xs < k
      → Leaves tt (whole l (reversed xs [])) (list_reverse k l m)
  unfolding list_reverse
  list_reverse-reversed k [] c h = (m, rw (list_empty-ok m l [] c, ==_refl l.tail) refl, c)
  list_reverse-reversed k (x ∷ xs) c h =
      let t = l.tail in
      let f = flips (x ∷ xs) m in
      let z = last_of x xs in
      let (d, e, apart) = Distinct-append (x ∷ xs) (t ∷ []) c.distinct.1 in
      let (k1, k2, k3) = Linked-init m x xs t c.linked.2 in
      let hz = has-last_of x xs in
      let a0 = has-append null (x ∷ xs) (t ∷ []) in
      let ah = has-append l.head (x ∷ xs) (t ∷ []) in
      let n0 : has null (x ∷ xs) ≡ false = ground (arith, c.nonnull, a0) in
      let h_x : has l.head (x ∷ xs) ≡ false = ground (arith, c.distinct.0, ah) in
      let t_x : has t (x ∷ xs) ≡ false = ground (arith, apart t) in
      let fn = λ (y : Ptr). flips-next (x ∷ xs) m y d in
      let fp = λ (y : Ptr). flips-prev (x ∷ xs) m y d in
      let nh : f.next l.head ≡ x = fn l.head ∙ rw h_x c.linked.0 in
      let pt : f.prev t ≡ z = fp t ∙ rw t_x k3 in
      let pz : f.prev z ≡ t = fp z ∙ rw hz k2 in
      let nx : f.next x ≡ l.head = fn x ∙ rw (==_refl x) c.linked.1 in
      let tz : (t == z) ≡ false = differ t z (x ∷ xs) t_x hz in
      let hx : (l.head == x) ≡ false = ground (arith, h_x) in
      let r = reverse_loop-flips k (x ∷ xs) t m c.linked.2 c.distinct.1 n0 h in
      let z0 = differ null z (x ∷ xs) n0 hz in
      let s = swap_ends-ok f l x z (ground (arith, c.nonnull, a0)) nh pt pz nx tz hx in
      (
        ended f l x z,
        rw (list_empty-ok m l (x ∷ xs) c, not_tail m l x xs c)
            (rw (list_begin-ok m l (x ∷ xs) c) (rw r s)),
        subst (Chain (ended f l x z)) (ap (λ w. l.head ∷ w) (reversed-append (x ∷ xs) [] (t ∷ [])))
            (record {
              linked = subst (Linked (ended f l x z)) (reversed-snoc (x ∷ xs) l.head (t ∷ [])) (
                  Back-reversed (ended f l x z) t (x ∷ (xs ++ (l.head ∷ []))) []
                    (
                      rw (==_refl x) refl,
                      ground arith,
                      Back-flipped m (ended f l x z) x xs l.head k1
                          (λ y i.
                            let hy = has-init y (x ∷ xs) i in
                            rw (init-last_of y x xs d i, differ t y (x ∷ xs) t_x hy)
                              (fp y ∙ rw hy refl))
                          (λ y i.
                            let hy : has y (x ∷ xs) ≡ true = ground arith in
                            rw (differ x y xs d.0 i, differ l.head y (x ∷ xs) h_x hy)
                              (fn y ∙ rw hy refl))
                          (rw (==_refl z) refl)
                          (let xh : (x == l.head) ≡ false = ground arith in
                            rw (xh, ==_refl l.head) refl),
                    )
                    tt);
              distinct = (
                ground (arith, has-reversed l.head (x ∷ xs) (t ∷ []), c.distinct.0, ah),
                reversed-Distinct (x ∷ xs) (t ∷ []) d e apart,
              );
              nonnull = ground (arith, has-reversed null (x ∷ xs) (t ∷ []), c.nonnull, a0);
            }),
      )
