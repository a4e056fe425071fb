-- ===== src/Words/Order.antt =====
-- hw-intro/words/main.c: the order in which the words are printed.
use os_tools_and_features.Prelude.{
  ℕ, ◌≡◌, refl, List, [], ◌∷◌, true, false, ◌==◌, arith, ==_iff, Bool-cases, inl, inr, ◌⊎◌,
}
use os_tools_and_features.Words.{negative, equal, strcmp, WordCount, wordcount_less}

strcmp_self : (a : List ℕ) → strcmp a a ≡ equal
unfolding strcmp
strcmp_self [] = refl
strcmp_self (c ∷ cs) = ground (arith, strcmp_self cs)

strcmp_trans :
    (a b c : List ℕ) → strcmp a b ≡ negative → strcmp b c ≡ negative → strcmp a c ≡ negative
unfolding strcmp
strcmp_trans [] [] c h g = cc
strcmp_trans [] (y ∷ b) [] h g = cc
strcmp_trans [] (y ∷ b) (z ∷ c) h g = refl
strcmp_trans (x ∷ a) [] c h g = cc
strcmp_trans (x ∷ a) (y ∷ b) [] h g = cc
strcmp_trans (x ∷ a) (y ∷ b) (z ∷ c) h g = ground (arith, strcmp_trans a b c)

strcmp_total : (a b : List ℕ) → (strcmp a b ≡ negative) ⊎ (strcmp b a ≡ negative) ⊎ (a ≡ b)
unfolding strcmp
strcmp_total [] [] = inr (inr refl)
strcmp_total [] (y ∷ b) = inl refl
strcmp_total (x ∷ a) [] = inr (inl refl)
strcmp_total (x ∷ a) (y ∷ b) = ground (arith, strcmp_total a b)

less_self : (a : WordCount) → wordcount_less a a ≡ false
unfolding wordcount_less
less_self a = ground (arith, strcmp_self a.word)

less_trans :
    (a b c : WordCount)
    → wordcount_less a b ≡ true
    → wordcount_less b c ≡ true
    → wordcount_less a c ≡ true
unfolding wordcount_less
less_trans a b c h g = ground (arith, strcmp_trans a.word b.word c.word)

less_total : (a b : WordCount) → (wordcount_less a b ≡ true) ⊎ (wordcount_less b a ≡ true) ⊎ (a ≡ b)
unfolding wordcount_less
less_total a b = elim (strcmp_total a.word b.word) [
  | inl n ↦ ground arith
  | inr (inl p) ↦ ground arith
  | inr (inr e) ↦ elim (Bool-cases (a.count == b.count)) [
    | inl same ↦
        let f = (==_iff a.count b.count).0 same in
        inr (inr (λ i. record { word = e i; count = f i }))
    | inr other ↦ ground arith
  ]
]

-- wordcount_less() is a strict total order on word counts: no count is less than itself, it is
-- transitive, and of two different counts one is less, by the number and then by the word.
pub wordcount_less_lem :
    (a b c : WordCount)
    → (wordcount_less a a ≡ false)
      × (wordcount_less a b ≡ true → wordcount_less b c ≡ true → wordcount_less a c ≡ true)
      × ((wordcount_less a b ≡ true) ⊎ (wordcount_less b a ≡ true) ⊎ (a ≡ b))
wordcount_less_lem a b c = (less_self a, less_trans a b c, less_total a b)
