-- ===== src/Strings/Copies.antt =====
-- proj-pregame/src/lib/string.c: strlcpy() and strlcat().
use os_tools_and_features.Prelude.{
  ℕ, zero, suc, ◌+◌, ◌-◌, ◌<◌, ◌≤◌, ◌≡◌, ◌⊎◌, refl, ap, subst, ◌∙◌, List, [], ◌∷◌, length, true,
  false, ◌==◌, ltb, arith, if◌then◌else◌,
}
use os_tools_and_features.Prelude.Runs.{ok}
use os_tools_and_features.Strings.{Bytes, lesser, strlcpy}
use os_tools_and_features.Strings.Text.{Text, strlen-ok}
use os_tools_and_features.Strings.Blocks.{moved, memcpy-Copies}

abbrev pub take : ℕ → List ℕ → List ℕ
take zero xs = []
take (suc n) [] = []
take (suc n) (x ∷ xs) = x ∷ take n xs

-- A copy of the first characters of a string, with a null byte behind them.
copied-Text :
    (m g : Bytes) (n dst src : ℕ) (xs : List ℕ)
    → Text m src xs
    → ((i : ℕ) → i < lesser (length xs) n → g (dst + i) ≡ m (src + i))
    → g (dst + lesser (length xs) n) ≡ 0
    → Text g dst (take n xs)
copied-Text m g zero dst src xs t h z = subst (λ p. g p ≡ 0) (ground arith) z
copied-Text m g (suc n) dst src [] t h z = subst (λ p. g p ≡ 0) (ground arith) z
copied-Text m g (suc n) dst src (x ∷ xs) t h z = (
  subst (λ p. g p ≡ x) (omega arith) (h 0 (ground arith) ∙ ap m (omega arith) ∙ t.0),
  t.1,
  t.2,
  copied-Text m g n (suc dst) (suc src) xs t.3
      (λ i l. ap g (omega arith) ∙ h (suc i) (ground arith) ∙ ap m (omega arith))
      (ap g (ground arith) ∙ z),
)

-- A store of a byte behind a block that was copied.
abbrev pub ended : Bytes → ℕ → Bytes
ended m p q = if q == p then 0 else m q

module _ (m g : Bytes) (dst src n : ℕ) (c : (p : ℕ) → g p ≡ moved m dst src n p) where
  ended_in : (i : ℕ) → i < n → ended g (dst + n) (dst + i) ≡ m (src + i)
  ended_in i l =
      let e : src + (dst + i - dst) ≡ src + i = omega arith in ground (arith, c (dst + i), ap m e)

  ended_at : ended g (dst + n) (dst + n) ≡ 0
  ended_at = ground arith

  ended_out : (p : ℕ) → (p < dst) ⊎ (dst + n < p) → ended g (dst + n) p ≡ m p
  ended_out p o = ground (arith, c p)

module _ (m : Bytes) (k dst src size : ℕ) (xs : List ℕ) (z : 0 < dst) (w : 0 < src)
    (t : Text m src xs) (h : length xs < k)
    (apart : (src + length xs < dst) ⊎ (dst + size ≤ src)) where
  -- strlcpy() of a string into SIZE bytes, one or more, that are apart from it returns the length of the
  -- string, and leaves there as many of its characters as fit with a null byte, and that null byte. No
  -- byte outside the SIZE bytes changes.
  pub strlcpy-Text :
      0 < size
      → (g : Bytes) × (strlcpy k dst src size m ≡ ok (length xs) g)
        × Text g dst (take (size - 1) xs)
        × ((p : ℕ) → (p < dst) ⊎ (dst + size ≤ p) → g p ≡ m p)
  unfolding strlcpy
  strlcpy-Text s =
      let e : (dst == 0) ≡ false = ground arith in
      let f : (src == 0) ≡ false = ground arith in
      let b : ltb 0 size ≡ true = ground arith in
      let n = lesser (length xs) (size - 1) in
      let (g, r, c) = memcpy-Copies m dst src n z w (ground arith) in
      (
        ended g (dst + n),
        rw (e, f) (rw (strlen-ok m k src xs t w h) (rw b (rw r refl))),
        copied-Text m (ended g (dst + n)) (size - 1) dst src xs t (ended_in m g dst src n c)
            (ended_at m g dst src n c),
        λ p o. ended_out m g dst src n c p (ground arith),
      )
