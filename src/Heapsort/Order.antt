-- ===== src/Heapsort/Order.antt =====
-- proj-pregame/src/lib/stdlib.c: sort().
use os_tools_and_features.Prelude.{
  ℕ, zero, suc, ◌*◌, ◌/◌, ◌≤◌, ◌<◌, ◌≡◌, refl, ap, ◌∙◌, inl, inr, false, ◌==◌, ltb, leb, arith,
  Bool-cases, ==_iff,
}
use os_tools_and_features.Heapsort.{Compared, done, do_swap, build_loop, extract_loop, sort}
use os_tools_and_features.Heapsort.Sift.{
  Rearranged, Rearranged-refl, Rearranged-trans, do_swap-Rearranged, above, Heaped, Almost, Total,
  heapify-Heaped,
}

module _ {A : Type 0} (compare : A → A → Compared) (t : Total compare) where
  -- No element at a place from 1 to `cnt` is above one behind it.
  abbrev pub Ascending : (ℕ → A) → ℕ → ℕ → Type 0
  Ascending a from cnt =
      (p q : ℕ) → 0 < p → p ≤ q → from < q → q ≤ cnt → above compare (a p) (a q) ≡ false

  irrefl : (x : A) → above compare x x ≡ false
  irrefl x = elim (Bool-cases (above compare x x)) [ inl e ↦ t.asym x x e | inr e ↦ e ]

  build_loop-Heaped :
      (k i : ℕ) (a : ℕ → A) (cnt : ℕ)
      → Heaped compare a (suc i) cnt
      → 2 * i ≤ cnt
      → cnt < k
      → (b : ℕ → A) × (build_loop compare k i a cnt ≡ done b)
        × Heaped compare b 1 cnt
        × Rearranged b a cnt
  unfolding build_loop
  build_loop-Heaped k zero a cnt h u f = (a, refl, h, Rearranged-refl a cnt)
  build_loop-Heaped k (suc i) a cnt h u f =
      let (b, r, q, w) =
        heapify-Heaped compare t k a (suc i) (suc i) cnt (omega arith) (omega arith) (omega arith)
          (record {
            others = λ p c x y z v. h p c x (ground arith) z;
            across = λ p c x y z v. absurd (omega arith);
          })
          (omega arith) in
      let (b', r', q', w') = build_loop-Heaped k i b cnt q (omega arith) f in
      (b', rw r r', q', Rearranged-trans b' b a cnt cnt (omega arith) w' w)

  -- The root of a heap is below no element.
  root-greatest :
      (a : ℕ → A) (cnt : ℕ)
      → Heaped compare a 1 cnt
      → (n p : ℕ) → p ≤ n
      → 0 < p
      → p ≤ cnt
      → above compare (a p) (a 1) ≡ false
  root-greatest a cnt h zero p l z u = absurd (omega arith)
  root-greatest a cnt h (suc n) p l z u = elim (Bool-cases (p == 1)) [
    | inl e ↦ rw ((==_iff p 1).0 e) (irrefl (a 1))
    | inr e ↦
        t.trans (a p) (a (p / 2)) (a 1) (h (p / 2) p (ground arith) (ground arith) u)
          (root-greatest a cnt h n (p / 2) (ground arith) (ground arith) (omega arith))
  ]

  -- The root of a heap goes behind it.
  swapped-Almost :
      (a : ℕ → A) (i : ℕ)
      → 0 < i
      → Heaped compare a 1 (suc i)
      → Almost compare (do_swap a 1 (suc i)) 1 1 i
  swapped-Almost a i z h = record {
    others = λ p c x y w v.
        let c_1 : (c == 1) ≡ false = ground arith in
        let c_i : (c == suc i) ≡ false = ground arith in
        let p_i : (p == suc i) ≡ false = ground arith in
        rw (c_1, c_i, v, p_i) (h p c x y (omega arith));
    across = λ p c x y w v. absurd (omega arith);
  }

  swapped-Ascending :
      (a b : ℕ → A) (i cnt : ℕ)
      → 0 < i
      → Heaped compare a 1 (suc i)
      → Ascending a (suc i) cnt
      → Rearranged b (do_swap a 1 (suc i)) i
      → Ascending b i cnt
  swapped-Ascending a b i cnt i0 h s r p q z l f u =
      let w = Rearranged-trans b (do_swap a 1 (suc i)) a i (suc i) (omega arith) r (
        do_swap-Rearranged a 1 (suc i) (suc i) (omega arith) (omega arith) (omega arith)
          (omega arith)) in
      rw (w.value p) (elim (Bool-cases (q == suc i)) [
        | inl e ↦
            let q_1 : (q == 1) ≡ false = ground arith in
            let v : b q ≡ a 1 =
              r.value q ∙ ap (do_swap a 1 (suc i)) (r.outside q (inr f)) ∙ rw (q_1, e) refl in
            let (x, y) = w.inside p z (ground arith) in
            rw v (root-greatest a (suc i) h (suc i) (w.to p) y x y)
        | inr e ↦
            let v : b q ≡ a q = w.value q ∙ ap a (w.outside q (inr (ground arith))) in
            rw v (elim (Bool-cases (leb p (suc i))) [
              | inl o ↦
                  let (x, y) = w.inside p z (ground arith) in
                  s (w.to p) q x (ground arith) (ground arith) u
              | inr o ↦ rw (w.outside p (inr (ground arith))) (s p q z l (ground arith) u)
            ])
      ])

  extract_loop-Ascending :
      (k i : ℕ) (a : ℕ → A) (cnt : ℕ)
      → Heaped compare a 1 i
      → Ascending a i cnt
      → i ≤ cnt
      → cnt < k
      → (b : ℕ → A) × (extract_loop compare k i a ≡ done b) × Ascending b 0 cnt × Rearranged b a cnt
  unfolding extract_loop
  extract_loop-Ascending k zero a cnt h s u f = (a, refl, s, Rearranged-refl a cnt)
  extract_loop-Ascending k (suc i) a cnt h s u f = elim (Bool-cases (i == 0)) [
    | inl e ↦ (
      a,
      rw e refl,
      (λ p q z l g v. elim (Bool-cases (ltb 1 q)) [
        | inl c ↦ s p q z l (ground arith) v
        | inr c ↦ let o : p ≡ q = ground arith in rw o (irrefl (a q))
      ]),
      Rearranged-refl a cnt,
    )
    | inr e ↦
        let a' = do_swap a 1 (suc i) in
        let (b, r, q, w) =
          heapify-Heaped compare t k a' 1 1 i (omega arith) (omega arith) (ground arith)
            (swapped-Almost a i (ground arith) h) (omega arith) in
        let (b', r', q', w') =
          extract_loop-Ascending k i b cnt q (swapped-Ascending a b i cnt (ground arith) h s w)
            (omega arith) f in
        (
          b',
          rw e (rw r r'),
          q',
          Rearranged-trans b' b a cnt cnt (omega arith) w' (
              Rearranged-trans b a' a i cnt (omega arith) w
                (do_swap-Rearranged a 1 (suc i) cnt (omega arith) (omega arith) (omega arith) u)),
        )
  ]

  -- sort() returns. The elements at the places from 1 to CNT are then those that stood there, each once,
  -- and none is above one behind it; all others stay as they were. The comparison is a total order,
  -- up to elements that compare as the same.
  pub sort-Ascending :
      (k : ℕ) (a : ℕ → A) (cnt : ℕ)
      → cnt < k
      → (b : ℕ → A) × (sort compare k a cnt ≡ done b) × Ascending b 0 cnt × Rearranged b a cnt
  unfolding sort
  sort-Ascending k a cnt f =
      let (b, r, q, w) =
        build_loop-Heaped k (cnt / 2) a cnt (λ p c x y z. absurd (ground arith)) (omega arith) f in
      let (b', r', q', w') =
        extract_loop-Ascending k cnt b cnt q (λ p q z l g v. absurd (omega arith)) (omega arith)
          f in
      (b', rw r r', q', Rearranged-trans b' b a cnt cnt (omega arith) w' w)
