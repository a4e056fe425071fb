-- ===== src/Heapsort/Sift.antt =====
-- proj-pregame/src/lib/stdlib.c: heapify() makes a heap of an array that is one but for an element.
use os_tools_and_features.Prelude.{
  ℕ, zero, suc, ◌+◌, ◌*◌, ◌≤◌, ◌<◌, ◌≡◌, ◌⊎◌, refl, sym, ap, subst, ◌∙◌, inl, inr, Bool, true,
  false, ◌&&◌, ◌==◌, leb, arith, if◌then◌else◌, Bool-cases, ==_iff, ==_refl,
}
use os_tools_and_features.Heapsort.{
  Compared, done, is_more, do_swap, do_compare, max_left, max_both, heapify,
}

abbrev pub Child : ℕ → ℕ → Type 0
Child c p = (c ≡ 2 * p) ⊎ (c ≡ 2 * p + 1)

-- The elements at 1 to `cnt` of the first array are those of the second, at places that `to` gives.
pub record Rearranged {A : Type 0} (a b : ℕ → A) (cnt : ℕ) : Type 0 where
  pub to : ℕ → ℕ
  pub from : ℕ → ℕ
  pub from_to : (p : ℕ) → from (to p) ≡ p
  pub to_from : (p : ℕ) → to (from p) ≡ p
  pub inside : (p : ℕ) → 0 < p → p ≤ cnt → (0 < to p) × (to p ≤ cnt)
  pub outside : (p : ℕ) → (p ≡ 0) ⊎ (cnt < p) → to p ≡ p
  pub value : (p : ℕ) → a p ≡ b (to p)

abbrev swapped : ℕ → ℕ → ℕ → ℕ
swapped i j p = if p == i then j else if p == j then i else p

module _ {A : Type 0} where
  pub Rearranged-refl : (a : ℕ → A) (cnt : ℕ) → Rearranged a a cnt
  Rearranged-refl a cnt = record {
    to = λ p. p;
    from = λ p. p;
    from_to = λ p. refl;
    to_from = λ p. refl;
    inside = λ p h k. (h, k);
    outside = λ p h. refl;
    value = λ p. refl;
  }

  pub Rearranged-trans :
      (a b c : ℕ → A) (n m : ℕ) → n ≤ m → Rearranged a b n → Rearranged b c m → Rearranged a c m
  Rearranged-trans a b c n m l r s = record {
    to = λ p. s.to (r.to p);
    from = λ p. r.from (s.from p);
    from_to = λ p. ap r.from (s.from_to (r.to p)) ∙ r.from_to p;
    to_from = λ p. ap s.to (r.to_from (s.from p)) ∙ s.to_from p;
    inside = λ p h k. elim (Bool-cases (leb p n)) [
      | inl i ↦ let (u, v) = r.inside p h (ground arith) in s.inside (r.to p) u (omega arith)
      | inr i ↦
          subst (λ q. (0 < s.to q) × (s.to q ≤ m)) (sym (r.outside p (inr (ground arith))))
            (s.inside p h k)
    ];
    outside = λ p h. ap s.to (r.outside p (omega arith)) ∙ s.outside p h;
    value = λ p. r.value p ∙ s.value (r.to p);
  }

  pub do_swap-Rearranged :
      (a : ℕ → A) (i j cnt : ℕ)
      → 0 < i
      → i ≤ cnt
      → 0 < j
      → j ≤ cnt
      → Rearranged (do_swap a i j) a cnt
  do_swap-Rearranged a i j cnt h k u v = record {
    to = swapped i j;
    from = swapped i j;
    from_to = λ p. ground arith;
    to_from = λ p. ground arith;
    inside = λ p x y. (ground arith, ground arith);
    outside = λ p x. ground arith;
    value = λ p. elim (Bool-cases (p == i)) [
      | inl e ↦ rw e refl
      | inr e ↦ rw e (elim (Bool-cases (p == j)) [ inl f ↦ rw f refl | inr f ↦ rw f refl ])
    ];
  }

  do_swap-left : (a : ℕ → A) (i j : ℕ) → do_swap a i j i ≡ a j
  do_swap-left a i j = rw (==_refl i) refl

  do_swap-right : (a : ℕ → A) (i j : ℕ) → (j == i) ≡ false → do_swap a i j j ≡ a i
  do_swap-right a i j e = rw (e, ==_refl j) refl

  do_swap-other :
      (a : ℕ → A) (i j p : ℕ) → (p == i) ≡ false → (p == j) ≡ false → do_swap a i j p ≡ a p
  do_swap-other a i j p e f = rw (e, f) refl

module _ {A : Type 0} (compare : A → A → Compared) where
  abbrev pub above : A → A → Bool
  above x y = is_more (compare x y)

  -- No element from 1 to `cnt` is above its parent, where the parent is at `lo` or after it.
  abbrev pub Heaped : (ℕ → A) → ℕ → ℕ → Type 0
  Heaped a lo cnt = (p c : ℕ) → Child c p → lo ≤ p → c ≤ cnt → above (a c) (a p) ≡ false

  -- The same but for the children of `i`, which are not above the parent of `i` either.
  pub record Almost (a : ℕ → A) (i lo cnt : ℕ) : Type 0 where
    pub others :
        (p c : ℕ) → Child c p → lo ≤ p → c ≤ cnt → (p == i) ≡ false → above (a c) (a p) ≡ false
    pub across : (p c : ℕ) → Child i p → lo ≤ p → Child c i → c ≤ cnt → above (a c) (a p) ≡ false

  -- An order: what is above is not below, and not being above carries over.
  pub record Total : Type 0 where
    pub asym : (x y : A) → above x y ≡ true → above y x ≡ false
    pub trans : (x y z : A) → above x y ≡ false → above y z ≡ false → above x z ≡ false

  module _ (t : Total) (a : ℕ → A) (cnt : ℕ) where
    irrefl : (x : A) → above x x ≡ false
    irrefl x = elim (Bool-cases (above x x)) [ inl e ↦ t.asym x x e | inr e ↦ e ]

    -- One comparison of heapify(), of `j` with what `max` is so far.
    abbrev greater : ℕ → ℕ → ℕ
    greater j m = if leb j cnt && is_more (do_compare compare a j m) then j else m

    greater-old : (j m : ℕ) → above (a m) (a (greater j m)) ≡ false
    greater-old j m = elim (Bool-cases (leb j cnt && is_more (compare (a j) (a m)))) [
      | inl e ↦ rw e (t.asym (a j) (a m) (ground (arith, e)))
      | inr e ↦ rw e (irrefl (a m))
    ]

    greater-new : (j m : ℕ) → j ≤ cnt → above (a j) (a (greater j m)) ≡ false
    greater-new j m h = elim (Bool-cases (leb j cnt && is_more (compare (a j) (a m)))) [
      | inl e ↦ rw e (irrefl (a j))
      | inr e ↦ rw e (ground (arith, e))
    ]

    module _ (i : ℕ) where
      max_both_self : above (a i) (a (max_both compare a i cnt)) ≡ false
      max_both_self =
          t.trans (a i) (a (max_left compare a i cnt)) (a (max_both compare a i cnt))
            (greater-old (2 * i) i) (greater-old (2 * i + 1) (max_left compare a i cnt))

      max_both_greatest :
          (c : ℕ) → Child c i → c ≤ cnt → above (a c) (a (max_both compare a i cnt)) ≡ false
      max_both_greatest c (inl e) k =
          subst (λ d. above (a d) (a (max_both compare a i cnt)) ≡ false) (sym e)
            (t.trans (a (2 * i)) (a (max_left compare a i cnt)) (a (max_both compare a i cnt))
              (greater-new (2 * i) i (omega (arith, e)))
              (greater-old (2 * i + 1) (max_left compare a i cnt)))
      max_both_greatest c (inr e) k =
          subst (λ d. above (a d) (a (max_both compare a i cnt)) ≡ false) (sym e)
            (greater-new (2 * i + 1) (max_left compare a i cnt) (omega (arith, e)))

      max_both-place :
          (max_both compare a i cnt ≡ i)
          ⊎ (Child (max_both compare a i cnt) i × (max_both compare a i cnt ≤ cnt))
      max_both-place = ground arith

  module _ (t : Total) where
    sifted :
        (a : ℕ → A) (i m lo cnt : ℕ)
        → 0 < lo
        → lo ≤ i
        → Almost a i lo cnt
        → Child m i
        → m ≤ cnt
        → above (a i) (a m) ≡ false
        → ((c : ℕ) → Child c i → c ≤ cnt → above (a c) (a m) ≡ false)
        → Almost (do_swap a i m) m lo cnt
    sifted a i m lo cnt z l h d k s g = record {
      others = λ p c x y w v. elim (Bool-cases (p == i)) [
        | inl e ↦
            let c_i : (c == i) ≡ false = ground arith in
            elim (Bool-cases (c == m)) [
              | inl f ↦ rw (c_i, f, e) s
              | inr f ↦ rw (c_i, f, e) (g c (subst (Child c) ((==_iff p i).0 e) x) w)
            ]
        | inr e ↦ elim (Bool-cases (c == i)) [
          | inl f ↦ rw (f, e, v) (h.across p m (subst (λ q. Child q p) ((==_iff c i).0 f) x) y d k)
          | inr f ↦
              let c_m : (c == m) ≡ false = ground arith in rw (f, c_m, e, v) (h.others p c x y w e)
        ]
      ];
      across = λ p c x y q w.
          let p_i : (p == i) ≡ true = ground arith in
          let c_i : (c == i) ≡ false = ground arith in
          let c_m : (c == m) ≡ false = ground arith in
          rw (c_i, c_m, p_i) (h.others m c q (ground arith) w (ground arith));
    }

    pub heapify-Heaped :
        (k : ℕ) (a : ℕ → A) (i lo cnt : ℕ)
        → 0 < lo
        → lo ≤ i
        → i ≤ cnt
        → Almost a i lo cnt
        → cnt < i + k
        → (b : ℕ → A) × (heapify compare k a i cnt ≡ done b) × Heaped b lo cnt × Rearranged b a cnt
    unfolding heapify
    heapify-Heaped zero a i lo cnt z l u h f = absurd (omega arith)
    heapify-Heaped (suc k) a i lo cnt z l u h f =
        elim (Bool-cases (max_both compare a i cnt == i)) [
          | inl e ↦ (
            a,
            rw e refl,
            (λ p c x y w. elim (Bool-cases (p == i)) [
              | inl f ↦ rw ((==_iff p i).0 f) (
                  subst (λ q. above (a c) (a q) ≡ false) ((==_iff (max_both compare a i cnt) i).0 e)
                    (max_both_greatest t a cnt i c (subst (Child c) ((==_iff p i).0 f) x) w))
              | inr f ↦ h.others p c x y w f
            ]),
            Rearranged-refl a cnt,
          )
          | inr e ↦ elim (max_both-place t a cnt i) [
            | inl v ↦ absurd (ground (arith, v))
            | inr (d, v) ↦
                let m = max_both compare a i cnt in
                let (b, r, q, w) =
                  heapify-Heaped k (do_swap a i m) m lo cnt z (ground arith) v
                    (sifted a i m lo cnt z l h d v (max_both_self t a cnt i)
                      (max_both_greatest t a cnt i))
                    (ground arith) in
                (
                  b,
                  rw e r,
                  q,
                  Rearranged-trans b (do_swap a i m) a cnt cnt (omega arith) w
                      (do_swap-Rearranged a i m cnt (omega arith) u (omega arith) v),
                )
          ]
        ]
