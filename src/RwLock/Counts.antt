-- ===== src/RwLock/Counts.antt =====
-- Counting the threads in a phase, for proj-pregame/src/threads/synch.c.
use os_tools_and_features.Prelude.{
  ℕ, suc, ◌-◌, ◌<◌, ◌≡◌, ◌∙◌, sym, refl, List, [], ◌∷◌, length, Bool, true, false, ◌==◌, ◌&&◌, not,
  arith, Bool-cases, inl, inr,
}
use os_tools_and_features.Threads.{Ptr, update, remove}
use os_tools_and_features.Threads.Invariant.{has, Distinct}
use os_tools_and_features.RwLock.{Phase}

-- `n` threads are in a phase where `f` is true.
abbrev pub Counted : ℕ → (Phase → Bool) → (Ptr → Phase) → Type 0
Counted n f phase =
    (xs : List Ptr) × Distinct xs × (length xs ≡ n) × ((t : Ptr) → has t xs ≡ f (phase t))

has-remove :
    (t u : Ptr) (xs : List Ptr) → Distinct xs → has u (remove t xs) ≡ (has u xs && not (u == t))
has-remove t u [] d = refl
has-remove t u (x ∷ xs) (e, d) = ground (arith, has-remove t u xs d)

Distinct-remove : (t : Ptr) (xs : List Ptr) → Distinct xs → Distinct (remove t xs)
Distinct-remove t [] d = tt
Distinct-remove t (x ∷ xs) (e, d) = elim (Bool-cases (x == t)) [
  | inl same ↦ rw same d
  | inr other ↦ rw other (ground (arith, has-remove t x xs d), Distinct-remove t xs d)
]

length-remove : (t : Ptr) (xs : List Ptr) → has t xs ≡ true → suc (length (remove t xs)) ≡ length xs
length-remove t [] h = ground arith
length-remove t (x ∷ xs) h = ground (arith, length-remove t xs)

module _ (f : Phase → Bool) (phase : Ptr → Phase) where
  pub Counted-same :
      (n : ℕ) (phase' : Ptr → Phase)
      → Counted n f phase
      → ((t : Ptr) → f (phase' t) ≡ f (phase t))
      → Counted n f phase'
  Counted-same n phase' (xs, d, l, h) e = (xs, d, l, λ t. h t ∙ sym (e t))

  pub Counted-in :
      (n : ℕ) (t : Ptr) (p : Phase)
      → Counted n f phase
      → f (phase t) ≡ false
      → f p ≡ true
      → Counted (suc n) f (update phase t p)
  Counted-in n t p (xs, d, l, h) e e' =
      (t ∷ xs, (h t ∙ e, d), omega arith, λ u. ground (arith, h u))

  pub Counted-out :
      (n : ℕ) (t : Ptr) (p : Phase)
      → Counted n f phase
      → f (phase t) ≡ true
      → f p ≡ false
      → Counted (n - 1) f (update phase t p)
  Counted-out n t p (xs, d, l, h) e e' = (
    remove t xs,
    Distinct-remove t xs d,
    omega (arith, length-remove t xs (h t ∙ e)),
    λ u. ground (arith, h u, has-remove t u xs d),
  )

  pub Counted-positive : (n : ℕ) (t : Ptr) → Counted n f phase → f (phase t) ≡ true → 0 < n
  Counted-positive n t (xs, d, l, h) e = omega (arith, length-remove t xs (h t ∙ e))

  pub Counted-some : (n : ℕ) → Counted n f phase → 0 < n → (t : Ptr) × (f (phase t) ≡ true)
  Counted-some n ([], d, l, h) p = ground arith
  Counted-some n (x ∷ xs, d, l, h) p = (x, ground (arith, h x))
