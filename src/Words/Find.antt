-- ===== src/Words/Find.antt =====
-- hw-intro/words/word_count.c: looking for a word, and adding one.
use os_tools_and_features.Prelude.{
  ℕ, zero, suc, ◌≤◌, ◌≡◌, ◌↔◌, ap, refl, List, [], ◌∷◌, Option, none, some, Bool, true, false, ◌||◌,
  arith, Bool-cases, inl, inr,
}
use os_tools_and_features.Words.{
  strcmp, is_zero, WordCount, returns, running, len_words, find_loop, find_word, add_word,
  count_found,
}

pub is_zero-strcmp : (a b : List ℕ) → (is_zero (strcmp a b) ≡ true) ↔ (a ≡ b)
unfolding strcmp
is_zero-strcmp [] [] = (λ e. refl, λ e. refl)
is_zero-strcmp [] (d ∷ ds) = (λ e. cc, λ e. cc)
is_zero-strcmp (c ∷ cs) [] = (λ e. cc, λ e. cc)
is_zero-strcmp (c ∷ cs) (d ∷ ds) = ground (arith, is_zero-strcmp cs ds)

abbrev pub occurs : List ℕ → List WordCount → Bool
occurs word [] = false
occurs word (w ∷ ws) = is_zero (strcmp w.word word) || occurs word ws

find_loop-absent :
    (k : ℕ) (word : List ℕ) (i : ℕ) (ws : List WordCount) (wc : Option ℕ)
    → occurs word ws ≡ false
    → len_words ws ≤ k
    → find_loop k word i ws wc ≡ returns wc
unfolding find_loop len_words
find_loop-absent k word i [] wc a h = refl
find_loop-absent zero word i (w ∷ ws) wc a h = ground arith
find_loop-absent (suc k) word i (w ∷ ws) wc a h =
    ground (arith, find_loop-absent k word (suc i) ws wc)

-- The loop does not leave the node that it has found.
find_loop-stays :
    (k : ℕ) (word : List ℕ) (i : ℕ) (w : WordCount) (ws : List WordCount) (wc : Option ℕ)
    → is_zero (strcmp w.word word) ≡ true
    → find_loop k word i (w ∷ ws) wc ≡ running
unfolding find_loop
find_loop-stays zero word i w ws wc e = refl
find_loop-stays (suc k) word i w ws wc e =
    rw (find_loop, e) (find_loop-stays k word i w ws (some i) e)

find_loop-found :
    (k : ℕ) (word : List ℕ) (i : ℕ) (ws : List WordCount) (wc : Option ℕ)
    → occurs word ws ≡ true
    → find_loop k word i ws wc ≡ running
unfolding find_loop
find_loop-found k word i [] wc a = cc
find_loop-found zero word i (w ∷ ws) wc a = refl
find_loop-found (suc k) word i (w ∷ ws) wc a = elim (Bool-cases (is_zero (strcmp w.word word))) [
  | inl same ↦ find_loop-stays (suc k) word i w ws wc same
  | inr other ↦ rw (find_loop, other) (find_loop-found k word (suc i) ws wc (ground arith))
]

-- A word that is not in the list is put in front with the count 1, when find_word() may look at every
-- node once. For a word that is in the list add_word() does not return, whatever the bound on the
-- rounds of find_word(): its loop goes on to the next node only while the words differ.
pub add_word_lem :
    (word : List ℕ) (ws : List WordCount)
    → (occurs word ws ≡ false
        → (k : ℕ) → len_words ws ≤ k
        → add_word k ws word ≡ returns (record { word = word; count = 1 } ∷ ws))
      × (occurs word ws ≡ true → (k : ℕ) → add_word k ws word ≡ running)
unfolding add_word find_word
add_word_lem word ws = (
  (λ a k h. ap (count_found ws word) (find_loop-absent k word 0 ws none a h)),
  λ a k. ap (count_found ws word) (find_loop-found k word 0 ws none a),
)
