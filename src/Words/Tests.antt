-- ===== src/Words/Tests.antt =====
-- The word counters on concrete texts.
use os_tools_and_features.Prelude.{
  ℕ, zero, suc, ◌≤◌, ◌≡◌, refl, List, [], ◌∷◌, ◌++◌, true, false, arith,
}
use os_tools_and_features.Words.{
  WordCount, returns, running, overflows, none_yet, len_words, add_word, find_word, find_loop,
  strcmp, num_words, num_loop, count_words, count_loop,
}
use os_tools_and_features.Words.Find.{occurs, add_word_lem}
use os_tools_and_features.Words.Number.{Item, text, open_text}
use os_tools_and_features.Words.Count.{entries, count_words-text, count_words-overflows}

abbrev be : WordCount
be = record { word = b'b' ∷ b'e' ∷ []; count = 1 }

add_word_lem_example :
    (occurs (b'o' ∷ b'r' ∷ []) (be ∷ []) ≡ false
      → (k : ℕ) → len_words (be ∷ []) ≤ k
      → add_word k (be ∷ []) (b'o' ∷ b'r' ∷ [])
        ≡ returns (record { word = b'o' ∷ b'r' ∷ []; count = 1 } ∷ be ∷ []))
    × (occurs (b'o' ∷ b'r' ∷ []) (be ∷ []) ≡ true
        → (k : ℕ) → add_word k (be ∷ []) (b'o' ∷ b'r' ∷ []) ≡ running)
add_word_lem_example = add_word_lem (b'o' ∷ b'r' ∷ []) (be ∷ [])

-- "  Be or.", and without the full stop.
abbrev items : List Item
items =
    record { first = b'B'; second = b'e'; others = []; stop = 32; gap = [] }
    ∷ record { first = b'o'; second = b'r'; others = []; stop = 46; gap = 10 ∷ [] }
    ∷ []

count_words-text_example :
    (count_words 2 [] ((32 ∷ 32 ∷ []) ++ text items)
      ≡ returns (record { wclist = entries [] items; word = []; state = none_yet }))
    × (count_words 2 [] ((32 ∷ 32 ∷ []) ++ open_text items)
        ≡ returns (record { wclist = entries [] items; word = []; state = none_yet }))
unfolding strcmp len_words
count_words-text_example = count_words-text 2 [] (32 ∷ 32 ∷ []) items refl refl refl (omega arith)

abbrev repeat : ℕ → List ℕ
repeat zero = []
repeat (suc n) = b'a' ∷ repeat n

count_words-overflows_example :
    count_words 9 [] ([] ++ (b'a' ∷ b'a' ∷ (repeat 64 ++ 32 ∷ []))) ≡ overflows
count_words-overflows_example =
    count_words-overflows 9 [] [] b'a' b'a' (repeat 64) (32 ∷ []) refl refl (omega arith)

-- A single letter is not counted, and hides that the next word has one letter only.
num_words-singles : num_words (b'I' ∷ 32 ∷ b'a' ∷ 32 ∷ []) ≡ 1
unfolding num_words num_loop
num_words-singles = refl

-- The second "be" is the end of it.
count_words-twice : count_words 99 [] (b'b' ∷ b'e' ∷ 32 ∷ b'b' ∷ b'e' ∷ 32 ∷ []) ≡ running
unfolding count_words count_loop add_word find_word find_loop strcmp
count_words-twice = refl
