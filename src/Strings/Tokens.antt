-- ===== src/Strings/Tokens.antt =====
-- proj-pregame/src/lib/string.c: strtok_r().
use os_tools_and_features.Prelude.{
  ℕ, zero, suc, ◌+◌, ◌<◌, ◌≤◌, ◌≡◌, refl, sym, ap, subst, ◌∙◌, inl, inr, List, [], ◌∷◌, length,
  Bool, true, false, false≢true, ◌==◌, arith, if◌then◌else◌, Bool-cases, List-cases,
}
use os_tools_and_features.Threads.Invariant.{has}
use os_tools_and_features.Prelude.Runs.{Run, ok}
use os_tools_and_features.Strings.{
  Bytes, null, Skipped, skip_loop, token_loop, Token, strtok_r, cut_token,
}
use os_tools_and_features.Strings.Text.{Text, strchr-nonnull}

-- The text without the delimiters that it begins with, the token that a text begins with, and what
-- follows it.
abbrev pub trimmed : List ℕ → List ℕ → List ℕ
trimmed ds [] = []
trimmed ds (x ∷ xs) = if has x ds then trimmed ds xs else x ∷ xs

abbrev pub word : List ℕ → List ℕ → List ℕ
word ds [] = []
word ds (x ∷ xs) = if has x ds then [] else x ∷ word ds xs

abbrev pub after : List ℕ → List ℕ → List ℕ
after ds [] = []
after ds (x ∷ xs) = if has x ds then x ∷ xs else after ds xs

abbrev pub is_nil : List ℕ → Bool
is_nil [] = true
is_nil (x ∷ xs) = false

module _ (m : Bytes) (d : ℕ) (ds : List ℕ) (u : Text m d ds) (z : 0 < d) where
  abbrev Skips : List ℕ → Run Bytes Skipped → Type 0
  Skips xs r =
      (q : ℕ) × (r ≡ ok (record { at = q; ended = is_nil (trimmed ds xs) }) m)
      × Text m q (trimmed ds xs)

  skip_loop-Skips :
      (k s : ℕ) (xs : List ℕ)
      → Text m s xs
      → length xs + length ds < k
      → Skips xs (skip_loop k s d m)
  unfolding skip_loop
  skip_loop-Skips zero s xs t h = absurd (omega arith)
  skip_loop-Skips (suc k) s [] t h =
      let (q, r, e) = strchr-nonnull m (suc k) d 0 ds u z (omega arith) (omega arith) in
      (s, rw t (rw (r, e) refl), t)
  skip_loop-Skips (suc k) s (x ∷ xs) t h =
      let (q, r, e) = strchr-nonnull m (suc k) d x ds u z t.2 (omega arith) in
      let f : (x == 0) ≡ false = ground (arith, t.1) in
      elim (Bool-cases (has x ds)) [
        | inl g ↦
            let (p, r', t') = skip_loop-Skips k (suc s) xs t.3 (omega arith) in
            (p, rw t.0 (rw (r, e, f, g) (rw r' refl)), rw g t')
        | inr g ↦ (s, rw t.0 (rw (r, e, f, g) refl), rw g t)
      ]

  token_loop-word :
      (k s : ℕ) (xs : List ℕ)
      → Text m s xs
      → length xs + length ds < k
      → (token_loop k s d m ≡ ok (s + length (word ds xs)) m)
        × Text m (s + length (word ds xs)) (after ds xs)
  unfolding token_loop
  token_loop-word zero s xs t h = absurd (omega arith)
  token_loop-word (suc k) s [] t h =
      let (q, r, e) = strchr-nonnull m (suc k) d 0 ds u z (omega arith) (omega arith) in
      let n : (q == null) ≡ false = ground (arith, e) in
      (rw t (rw r (rw n (ap (λ w. ok w m) (omega arith)))), subst (λ p. m p ≡ 0) (omega arith) t)
  token_loop-word (suc k) s (x ∷ xs) t h =
      let (q, r, e) = strchr-nonnull m (suc k) d x ds u z t.2 (omega arith) in
      let f : (x == 0) ≡ false = ground (arith, t.1) in
      elim (Bool-cases (has x ds)) [
        | inl g ↦
            let n : (q == null) ≡ false = ground (arith, e) in
            rw g (
              rw t.0 (rw r (rw n (ap (λ w. ok w m) (omega arith)))),
              subst (λ p. Text m p (x ∷ xs)) (omega arith) t,
            )
        | inr g ↦
            let (r', t') = token_loop-word k (suc s) xs t.3 (omega arith) in
            let n : (q == null) ≡ true = ground (arith, e) in
            rw g (
              rw t.0 (rw r (rw n (r' ∙ ap (λ w. ok w m) (omega arith)))),
              subst (λ p. Text m p (after ds xs)) (omega arith) t',
            )
      ]

-- What is left of a text when the part after the token changes.
word-Text :
    (g m : Bytes) (ds : List ℕ) (e q : ℕ) (xs : List ℕ)
    → ((p : ℕ) → p < e → g p ≡ m p)
    → g e ≡ 0
    → e ≡ q + length (word ds xs)
    → Text m q xs
    → Text g q (word ds xs)
word-Text g m ds e q [] h z l t = subst (λ p. g p ≡ 0) (ground arith) z
word-Text g m ds e q (x ∷ xs) h z l t = elim (Bool-cases (has x ds)) [
  | inl i ↦ rw i (subst (λ p. g p ≡ 0) (l ∙ rw i (omega arith)) z)
  | inr i ↦
      let f : e ≡ suc (q + length (word ds xs)) = l ∙ rw i (omega arith) in
      rw i (h q (omega arith) ∙ t.0, t.1, t.2, word-Text g m ds e (suc q) xs h z (omega arith) t.3)
]

after-Text :
    (g m : Bytes) (q : ℕ) (xs : List ℕ) → ((p : ℕ) → q ≤ p → g p ≡ m p) → Text m q xs → Text g q xs
after-Text g m q [] h t = h q (omega arith) ∙ t
after-Text g m q (x ∷ xs) h t =
    (h q (omega arith) ∙ t.0, t.1, t.2, after-Text g m (suc q) xs (λ p l. h p (omega arith)) t.3)

length-trimmed : (ds xs : List ℕ) → length (trimmed ds xs) ≤ length xs
length-trimmed ds [] = omega arith
length-trimmed ds (x ∷ xs) = ground (arith, length-trimmed ds xs)

pub trimmed-word :
    (ds xs : List ℕ) → is_nil (trimmed ds xs) ≡ false → 0 < length (word ds (trimmed ds xs))
trimmed-word ds [] h = absurd (false≢true (sym h))
trimmed-word ds (x ∷ xs) h = elim (Bool-cases (has x ds)) [
  | inl i ↦ rw i (trimmed-word ds xs (rw i at h))
  | inr i ↦ rw i (rw i (omega arith))
]

-- The delimiter that ended a token is no part of the rest.
abbrev pub behind : List ℕ → List ℕ
behind [] = []
behind (x ∷ xs) = xs

-- What strtok_r() does with a text, given without the delimiters that it begins with.
abbrev pub Tokenized : Bytes → List ℕ → List ℕ → Run Bytes Token → Type 0
Tokenized m ds [] r = (q : ℕ) × (r ≡ ok (record { token = null; save_ptr = q }) m) × Text m q []
Tokenized m ds (x ∷ xs) r =
    (a q : ℕ) × (g : Bytes) × (r ≡ ok (record { token = a; save_ptr = q }) g)
    × Text g a (word ds (x ∷ xs))
    × Text g q (behind (after ds (x ∷ xs)))

module _ (m : Bytes) (d : ℕ) (ds : List ℕ) (u : Text m d ds) (z : 0 < d) where
  cut-Tokenized :
      (k : ℕ) (ys : List ℕ) (q : ℕ)
      → Text m q ys
      → length ys + length ds < k
      → Tokenized m ds ys (
          (if is_nil ys
              then (λ g. ok (record { token = null; save_ptr = q }) g)
              else cut_token k q d)
            m)
  unfolding cut_token
  cut-Tokenized k [] q t h = (q, refl, t)
  cut-Tokenized k (y ∷ ys) q t h =
      let (r, b) = token_loop-word m d ds u z k q (y ∷ ys) t h in
      elim (List-cases (after ds (y ∷ ys))) [
        | inl e ↦
            let n : m (q + length (word ds (y ∷ ys))) ≡ 0 =
              subst (Text m (q + length (word ds (y ∷ ys)))) e b in
            (
              q,
              q + length (word ds (y ∷ ys)),
              m,
              rw r (rw n refl),
              word-Text m m ds (q + length (word ds (y ∷ ys))) q (y ∷ ys) (λ p l. refl) n refl t,
              rw e n,
            )
        | inr (c, cs, e) ↦
            let b' : Text m (q + length (word ds (y ∷ ys))) (c ∷ cs) =
              subst (Text m (q + length (word ds (y ∷ ys)))) e b in
            let n : (m (q + length (word ds (y ∷ ys))) == 0) ≡ false = ground (arith, b'.0, b'.1) in
            let g : Bytes = λ p. if p == q + length (word ds (y ∷ ys)) then 0 else m p in
            (
              q,
              suc (q + length (word ds (y ∷ ys))),
              g,
              rw r (rw n refl),
              word-Text g m ds (q + length (word ds (y ∷ ys))) q (y ∷ ys) (λ p l. ground arith)
                  (ground arith) refl t,
              rw e (
                  after-Text g m (suc (q + length (word ds (y ∷ ys)))) cs (λ p l. ground arith)
                    b'.3),
            )
      ]

  -- strtok_r() skips the delimiters at the beginning of its text, which is the string or, if that is
  -- null, what it saved. If nothing is left it returns null and saves the end of the text. Otherwise it
  -- returns a string that is the token, up to the next delimiter or the end of the text, and saves the
  -- rest behind that delimiter.
  pub strtok_r-Tokenized :
      (k string save_ptr : ℕ) (xs : List ℕ)
      → Text m (if string == null then save_ptr else string) xs
      → 0 < (if string == null then save_ptr else string)
      → length xs + length ds < k
      → Tokenized m ds (trimmed ds xs) (strtok_r k string d save_ptr m)
  unfolding strtok_r
  strtok_r-Tokenized k string save_ptr xs t w h =
      let e : (d == 0) ≡ false = ground arith in
      let start : ℕ = if string == null then save_ptr else string in
      let f : (start == 0) ≡ false = ground arith in
      let (q, r, t') = skip_loop-Skips m d ds u z k start xs t h in
      let l = length-trimmed ds xs in
      rw (e, f) (rw r (cut-Tokenized k (trimmed ds xs) q t' (omega arith)))
