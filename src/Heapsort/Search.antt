-- ===== src/Heapsort/Search.antt =====
-- proj-pregame/src/lib/stdlib.c: binary_search().
use os_tools_and_features.Prelude.{
  ℕ, zero, suc, ◌+◌, ◌-◌, ◌/◌, ◌≤◌, ◌<◌, ◌≡◌, ◌≢◌, ◌⊎◌, refl, sym, subst, ◌∙◌, inl, inr, Option,
  none, some, ltb, arith, Bool-cases,
}
use os_tools_and_features.Heapsort.{Compared, less, same, more, done, search_loop, binary_search}

Compared-cases : (c : Compared) → (c ≡ less) ⊎ (c ≡ same) ⊎ (c ≡ more)
Compared-cases less = inl refl
Compared-cases same = inr (inl refl)
Compared-cases more = inr (inr refl)

less≢same : less ≢ same
less≢same e = subst (λ c. elim c as (λ x. Type 0) [ less ↦ Unit | same ↦ ⊥ | more ↦ Unit ]) e tt

more≢same : more ≢ same
more≢same e = subst (λ c. elim c as (λ x. Type 0) [ less ↦ Unit | same ↦ ⊥ | more ↦ Unit ]) e tt

module _ {K A : Type 0} (compare : K → A → Compared) (key : K) (array : ℕ → A) where
  -- The elements that the key is less than stand last, and those that it is more than first.
  abbrev pub InOrder : ℕ → Type 0
  InOrder cnt =
      (p q : ℕ)
      → p ≤ q
      → q < cnt
      → (compare key (array p) ≡ less → compare key (array q) ≡ less)
        × (compare key (array q) ≡ more → compare key (array p) ≡ more)

  -- An index between the two at which the key is, or none where no index is one.
  abbrev pub Found : ℕ → ℕ → Option ℕ → Type 0
  Found first last none = (p : ℕ) → first ≤ p → p < last → compare key (array p) ≢ same
  Found first last (some p) = (first ≤ p) × (p < last) × (compare key (array p) ≡ same)

  module _ (first middle last cnt : ℕ) (o : InOrder cnt) (l : last ≤ cnt) (h : first ≤ middle)
      (g : middle < last) where
    Found-lower :
        (r : Option ℕ)
        → compare key (array middle) ≡ less
        → Found first middle r
        → Found first last r
    Found-lower none e n = λ p u v. elim (Bool-cases (ltb p middle)) [
      | inl i ↦ n p u (ground arith)
      | inr i ↦ λ s. less≢same (sym ((o middle p (ground arith) (omega arith)).0 e) ∙ s)
    ]
    Found-lower (some p) e n = (n.0, omega (arith, n.1), n.2)

    Found-upper :
        (r : Option ℕ)
        → compare key (array middle) ≡ more
        → Found (middle + 1) last r
        → Found first last r
    Found-upper none e n = λ p u v. elim (Bool-cases (ltb middle p)) [
      | inl i ↦ n p (ground arith) v
      | inr i ↦ λ s. more≢same (sym ((o p middle (ground arith) (omega arith)).1 e) ∙ s)
    ]
    Found-upper (some p) e n = (omega (arith, n.0), n.1, n.2)

  search_loop-Found :
      (k first last cnt : ℕ)
      → InOrder cnt
      → last ≤ cnt
      → last - first < k
      → (r : Option ℕ) × (search_loop compare k key array first last ≡ done r) × Found first last r
  unfolding search_loop
  search_loop-Found zero first last cnt o l f = absurd (omega arith)
  search_loop-Found (suc k) first last cnt o l f = elim (Bool-cases (ltb first last)) [
    | inr e ↦ (none, rw e refl, λ p u v. absurd (ground arith))
    | inl e ↦
        let middle : ℕ = first + (last - first) / 2 in
        let g : middle < last = ground arith in
        elim (Compared-cases (compare key (array middle))) [
          | inl c ↦
              let (r, d, n) = search_loop-Found k first middle cnt o (omega arith) (omega arith) in
              (r, rw (e, c) d, Found-lower first middle last cnt o l (omega arith) g r c n)
          | inr (inl c) ↦ (some middle, rw (e, c) refl, (omega arith, g, c))
          | inr (inr c) ↦
              let (r, d, n) = search_loop-Found k (middle + 1) last cnt o l (omega arith) in
              (r, rw (e, c) d, Found-upper first middle last cnt o l (omega arith) g r c n)
        ]
  ]

  -- binary_search() of an array whose order fits the key returns. It gives the index of an element that
  -- compares as the same with the key, or none if no element does.
  pub binary_search-Found :
      (k cnt : ℕ)
      → InOrder cnt
      → cnt < k
      → (r : Option ℕ) × (binary_search compare k key array cnt ≡ done r) × Found 0 cnt r
  unfolding binary_search
  binary_search-Found k cnt o f = search_loop-Found k 0 cnt cnt o (omega arith) (omega arith)
