-- ===== src/Strings/Text.antt =====
-- proj-pregame/src/lib/string.c: the characters of a string in memory, and strlen(), strchr(), strcmp().
use os_tools_and_features.Prelude.{
  ℕ, zero, suc, ◌+◌, ◌%◌, ◌<◌, ◌≡◌, refl, ap, ◌∙◌, inl, inr, List, [], ◌∷◌, length, true, false,
  ◌||◌, ◌==◌, ltb, arith, if◌then◌else◌, Bool-cases,
}
use os_tools_and_features.Threads.Invariant.{has}
use os_tools_and_features.Prelude.Runs.{ok}
use os_tools_and_features.Strings.{
  Bytes, null, nonnull, strlen, strlen_loop, strchr, strchr_loop, Sign, minus, nought, plus, strcmp,
  strcmp_loop,
}

-- At `p` stand the characters `xs` and a null byte.
abbrev pub Text : Bytes → ℕ → List ℕ → Type 0
Text m p [] = m p ≡ 0
Text m p (x ∷ xs) = (m p ≡ x) × (0 < x) × (x < 256) × Text m (suc p) xs

abbrev pub place : ℕ → ℕ → List ℕ → ℕ
place p c [] = if 0 == c then p else null
place p c (x ∷ xs) = if x == c then p else place (suc p) c xs

place-nonnull : (p c : ℕ) (xs : List ℕ) → 0 < p → nonnull (place p c xs) ≡ (c == 0 || has c xs)
place-nonnull p c [] h = ground arith
place-nonnull p c (x ∷ xs) h = ground (arith, place-nonnull (suc p) c xs)

-- The order of two texts, by the first character that differs.
abbrev pub order : List ℕ → List ℕ → Sign
order [] [] = nought
order [] (y ∷ ys) = minus
order (x ∷ xs) [] = plus
order (x ∷ xs) (y ∷ ys) = if x == y then order xs ys else (if ltb x y then minus else plus)

module _ (m : Bytes) where
  strlen_loop-ok :
      (k p : ℕ) (xs : List ℕ)
      → Text m p xs
      → length xs < k
      → strlen_loop k p m ≡ ok (p + length xs) m
  unfolding strlen_loop
  strlen_loop-ok zero p xs t h = absurd (omega arith)
  strlen_loop-ok (suc k) p [] t h = rw t (ap (λ n. ok n m) (omega arith))
  strlen_loop-ok (suc k) p (x ∷ xs) t h =
      let e : (m p == 0) ≡ false = ground (arith, t.0, t.1) in
      rw e (strlen_loop-ok k (suc p) xs t.3 (omega arith) ∙ ap (λ n. ok n m) (omega arith))

  pub strlen-ok :
      (k p : ℕ) (xs : List ℕ)
      → Text m p xs
      → 0 < p
      → length xs < k
      → strlen k p m ≡ ok (length xs) m
  unfolding strlen
  strlen-ok k p xs t z h =
      let e : (p == 0) ≡ false = ground arith in
      rw e (rw (strlen_loop-ok k p xs t h) (ap (λ n. ok n m) (omega arith)))

  strchr_loop-ok :
      (k p c : ℕ) (xs : List ℕ)
      → Text m p xs
      → length xs < k
      → strchr_loop k p c m ≡ ok (place p c xs) m
  unfolding strchr_loop
  strchr_loop-ok zero p c xs t h = absurd (omega arith)
  strchr_loop-ok (suc k) p c [] t h =
      rw t (elim (Bool-cases (0 == c)) [ inl e ↦ rw e refl | inr e ↦ rw e refl ])
  strchr_loop-ok (suc k) p c (x ∷ xs) t h =
      let e : (x == 0) ≡ false = ground (arith, t.1) in
      rw t.0 (elim (Bool-cases (x == c)) [
        | inl f ↦ rw f refl
        | inr f ↦ rw (f, e) (strchr_loop-ok k (suc p) c xs t.3 (omega arith))
      ])

  pub strchr-ok :
      (k p c : ℕ) (xs : List ℕ)
      → Text m p xs
      → 0 < p
      → c < 256
      → length xs < k
      → strchr k p c m ≡ ok (place p c xs) m
  unfolding strchr
  strchr-ok k p c xs t z b h =
      let e : (p == 0) ≡ false = ground arith in
      let f : c % 256 ≡ c = omega arith in rw (e, f) (strchr_loop-ok k p c xs t h)

  -- strchr() finds a character of the string, and the null byte.
  pub strchr-nonnull :
      (k p c : ℕ) (xs : List ℕ)
      → Text m p xs
      → 0 < p
      → c < 256
      → length xs < k
      → (q : ℕ) × (strchr k p c m ≡ ok q m) × (nonnull q ≡ (c == 0 || has c xs))
  strchr-nonnull k p c xs t z b h =
      (place p c xs, strchr-ok k p c xs t z b h, place-nonnull p c xs z)

  strcmp_loop-order :
      (k a b : ℕ) (xs ys : List ℕ)
      → Text m a xs
      → Text m b ys
      → length xs < k
      → strcmp_loop k a b m ≡ ok (order xs ys) m
  unfolding strcmp_loop
  strcmp_loop-order zero a b xs ys t u h = absurd (omega arith)
  strcmp_loop-order (suc k) a b [] [] t u h = rw (t, u) refl
  strcmp_loop-order (suc k) a b [] (y ∷ ys) t u h =
      let e : ltb 0 y ≡ true = ground (arith, u.1) in rw (t, u.0) (rw e refl)
  strcmp_loop-order (suc k) a b (x ∷ xs) [] t u h =
      let e : (x == 0) ≡ false = ground (arith, t.1) in
      let f : ltb 0 x ≡ true = ground (arith, t.1) in
      let g : ltb x 0 ≡ false = ground (arith, t.1) in rw (t.0, u) (rw (e, f, g) refl)
  strcmp_loop-order (suc k) a b (x ∷ xs) (y ∷ ys) t u h =
      let e : (x == 0) ≡ false = ground (arith, t.1) in
      elim (Bool-cases (x == y)) [
        | inl s ↦
            rw (t.0, u.0)
              (rw (e, s) (strcmp_loop-order k (suc a) (suc b) xs ys t.3 u.3 (omega arith)))
        | inr s ↦
            rw (t.0, u.0)
              (rw (e, s)
                (elim (Bool-cases (ltb x y)) [
                  | inl l ↦ rw l refl
                  | inr l ↦ let g : ltb y x ≡ true = ground arith in rw (l, g) refl
                ]))
      ]

  -- strcmp() of two strings gives their order by the first character that differs; of a string and
  -- a longer one that begins with it, the first is less.
  pub strcmp-order :
      (k a b : ℕ) (xs ys : List ℕ)
      → 0 < a
      → 0 < b
      → Text m a xs
      → Text m b ys
      → length xs < k
      → strcmp k a b m ≡ ok (order xs ys) m
  unfolding strcmp
  strcmp-order k a b xs ys z w t u h =
      let e : (a == 0) ≡ false = ground arith in
      let f : (b == 0) ≡ false = ground arith in rw (e, f) (strcmp_loop-order k a b xs ys t u h)
