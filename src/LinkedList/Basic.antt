-- ===== src/LinkedList/Basic.antt =====
-- proj-pregame/src/lib/kernel/list.c: the operations on a chain, and on the list between two headers.
use os_tools_and_features.Prelude.{
  ◌≡◌, ◌≢◌, refl, sym, ap, subst, ◌∙◌, List, [], ◌∷◌, ◌++◌, append_assoc, ==_iff, ne→==_false, true,
  false, ◌==◌, ◌||◌, arith,
}
use os_tools_and_features.Threads.{Ptr, null}
use os_tools_and_features.Threads.Invariant.{has, has-append}
use os_tools_and_features.LinkedList.{
  Memory, Run, ok, is_interior, is_tail, list_next, list_prev, list_insert, list_splice,
  list_remove,
}
use os_tools_and_features.LinkedList.Chain.{
  first_or, Chain, last_of, Linked-right, Chain-Parts, Distinct-Apart, Apart, has-parts,
  has-last_of, init, next-nonnull, prev-nonnull, has-init_append, has-rest_append, init-last,
}
use os_tools_and_features.LinkedList.Splice.{unlinked, linked, unlink-Chain, link-Chain}

-- A run that returns `a` and leaves the chain `w`.
abbrev pub Leaves : {A : Type 0} → A → List Ptr → Run A → Type 0
Leaves a w r = (g : Memory) × (r ≡ ok a g) × Chain g w

module _ (m : Memory) (ps : List Ptr) (a b : Ptr) (qs : List Ptr)
    (c : Chain m (ps ++ (a ∷ b ∷ qs))) where
  neighbours : (m.next a ≡ b) × (m.prev b ≡ a) × ((a == null) ≡ false) × ((b == null) ≡ false)
  neighbours =
      let l = Linked-right m ps a (b ∷ qs) c.linked in
      let z = has-parts null ps a [] b qs in (l.0, l.1, ground arith, ground arith)

  pub list_next-ok : list_next a m ≡ ok b m
  unfolding list_next
  list_next-ok = let (n, p, x, y) = neighbours in ground arith

  pub list_prev-ok : list_prev b m ≡ ok a m
  unfolding list_prev
  list_prev-ok = let (n, p, x, y) = neighbours in ground arith

  pub before-ok : (is_interior b m || is_tail b m) ≡ true
  before-ok = let (n, p, x, y) = neighbours in ground arith

  -- list_insert() of a new element puts it between two neighbours.
  pub list_insert-Leaves :
      (e : Ptr)
      → e ≢ null
      → has e (ps ++ (a ∷ b ∷ qs)) ≡ false
      → Leaves tt (ps ++ (a ∷ e ∷ b ∷ qs)) (list_insert b e m)
  unfolding list_insert
  list_insert-Leaves e nz out =
      let (r, k) =
        link-Chain m ps a e [] b qs c tt (refl, tt)
          (λ x h.
            subst (λ y. has y (ps ++ (a ∷ b ∷ qs)) ≡ false) ((==_iff e x).0 (ground arith)) out)
          (ground arith) in
      (linked a b e e m, rw (before-ok, ne→==_false e null nz) r, k)

-- A step from an element to the one after it, in a loop that ends at `t`.
module _ (m : Memory) (ps : List Ptr) (x : Ptr) (xs : List Ptr) (t : Ptr) (qs : List Ptr) where
  pub step_end : Chain m (ps ++ (x ∷ (xs ++ (t ∷ qs)))) → (x == t) ≡ false
  step_end c = let a = Distinct-Apart ps x xs t qs c.distinct in ground (arith, a.p_qs)

  pub step_on :
      Chain m (ps ++ (x ∷ (xs ++ (t ∷ qs)))) → Chain m ((ps ++ (x ∷ [])) ++ (xs ++ (t ∷ qs)))
  step_on c = subst (Chain m) (sym (append_assoc ps (x ∷ []) (xs ++ (t ∷ qs)))) c

pub step_next :
    (m : Memory) (ps : List Ptr) (x : Ptr) (xs : List Ptr) (t : Ptr) (qs : List Ptr)
    → Chain m (ps ++ (x ∷ (xs ++ (t ∷ qs))))
    → list_next x m ≡ ok (first_or xs t) m
step_next m ps x [] t qs c = list_next-ok m ps x t qs c
step_next m ps x (y ∷ xs) t qs c = list_next-ok m ps x y (xs ++ (t ∷ qs)) c

-- An element between two others.
pub interior-ok :
    (m : Memory) (ps : List Ptr) (p : Ptr) (xs : List Ptr) (q : Ptr) (qs : List Ptr) (x : Ptr)
    → Chain m (ps ++ (p ∷ (xs ++ (q ∷ qs))))
    → has x xs ≡ true
    → is_interior x m ≡ true
interior-ok m ps p xs q qs x c h =
    let w = ps ++ (p ∷ (xs ++ (q ∷ qs))) in
    let n = next-nonnull m x w c.linked c.nonnull (
      subst (λ y. has x (init y) ≡ true) (append_assoc ps (p ∷ xs) (q ∷ qs))
        (has-init_append x (ps ++ (p ∷ xs)) q qs (ground (arith, has-append x ps (p ∷ xs))))) in
    let v =
      prev-nonnull m x w c.linked c.nonnull
        (has-rest_append x ps p (xs ++ (q ∷ qs)) (ground (arith, has-append x xs (q ∷ qs)))) in
    ground (arith, has-parts x ps p xs q qs, has-parts null ps p xs q qs)

-- list_remove() takes an element out and returns the next one.
pub list_remove-Leaves :
    (m : Memory) (ps : List Ptr) (p x q : Ptr) (qs : List Ptr)
    → Chain m (ps ++ (p ∷ x ∷ q ∷ qs))
    → Leaves q (ps ++ (p ∷ q ∷ qs)) (list_remove x m)
unfolding list_remove
list_remove-Leaves m ps p x q qs c =
    let (r, k, l) = unlink-Chain m ps p x [] q qs c in
    let s = Chain-Parts m ps p x [] q qs c.linked in
    let a = Distinct-Apart ps p (x ∷ []) q qs c.distinct in
    let z = has-parts null ps p (x ∷ []) q qs in
    (unlinked p q m, rw (interior-ok m ps p (x ∷ []) q qs x c (ground arith), r) (ground arith), k)

module _ (m : Memory) (ps : List Ptr) (p x : Ptr) (xs : List Ptr) (f : Ptr) (fs : List Ptr)
    (q : Ptr) (qs : List Ptr) where
  -- list_splice() of a range to a place before it in the same chain.
  pub list_splice-Leaves :
      Chain m (ps ++ (p ∷ x ∷ (xs ++ (f ∷ (fs ++ (q ∷ qs))))))
      → Leaves tt (ps ++ (p ∷ f ∷ (fs ++ (x ∷ (xs ++ (q ∷ qs)))))) (list_splice x f q m)
  unfolding list_splice
  list_splice-Leaves c =
      let e' = regroup (q ∷ qs) in
      let c' : Chain m (ps' ++ (p' ∷ f ∷ (fs ++ (q ∷ qs)))) =
        subst (Chain m) (regroup (f ∷ (fs ++ (q ∷ qs)))) c in
      let a = Distinct-Apart ps' p' (f ∷ fs) q qs c'.distinct in
      let (r, k, l) = unlink-Chain m ps' p' f fs q qs c' in
      let g = unlinked p' q m in
      let (r', k') =
        link-Chain g ps p f fs x (xs ++ (q ∷ qs)) (subst (Chain g) (sym e') k) l a.distinct_fs
          (λ y h.
            subst (λ z. has y z ≡ false) (sym e')
              (ground (arith, a.p_fs, a.q_fs, a.ps_fs y, a.fs_qs y, has-parts y ps' p' [] q qs)))
          (ground (arith, c'.nonnull, has-parts null ps' p' (f ∷ fs) q qs)) in
      (
        linked p x f (last_of f fs) g,
        rw (before-ok m ps p x (xs ++ (f ∷ (fs ++ (q ∷ qs)))) c, different a, previous c')
            (rw
              (
                interior-ok m ps' p' (f ∷ fs) q qs f c' (ground arith),
                interior-ok m ps' p' (f ∷ fs) q qs (last_of f fs) c' (has-last_of f fs),
                r,
              )
              r'),
        k',
      )
    where
      ps' : List Ptr
      ps' = ps ++ (p ∷ init (x ∷ xs))

      p' : Ptr
      p' = last_of x xs

      regroup : (ys : List Ptr) → ps ++ (p ∷ x ∷ (xs ++ ys)) ≡ ps' ++ (p' ∷ ys)
      regroup ys =
          ap (λ z. ps ++ (p ∷ z)) (init-last x xs ys)
          ∙ sym (append_assoc ps (p ∷ init (x ∷ xs)) (p' ∷ ys))

      different : Apart ps' p' (f ∷ fs) q qs → (f == q) ≡ false
      different a = ground (arith, a.q_fs)

      previous : Chain m (ps' ++ (p' ∷ f ∷ (fs ++ (q ∷ qs)))) → list_prev q m ≡ ok (last_of f fs) m
      previous c = list_prev-ok m (ps' ++ (p' ∷ init (f ∷ fs))) (last_of f fs) q qs (
          subst (Chain m)
            (ap (λ z. ps' ++ (p' ∷ z)) (init-last f fs (q ∷ qs))
              ∙ sym (append_assoc ps' (p' ∷ init (f ∷ fs)) (last_of f fs ∷ q ∷ qs)))
            c)
