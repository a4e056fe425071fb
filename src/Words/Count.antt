-- ===== src/Words/Count.antt =====
-- hw-intro/words/main.c: how often each word occurs.
use os_tools_and_features.Prelude.{
  ℕ, ◌+◌, ◌≤◌, ◌<◌, ◌≡◌, ◌∙◌, ap, sym, refl, List, [], ◌∷◌, ◌++◌, append_assoc, map, length,
  length-append, append-nil, lt→ltb, Bool, true, false, not, ◌&&◌, ◌==◌, ltb, arith, Bool-cases,
  inl, inr,
}
use os_tools_and_features.Words.{
  isalpha, tolower, WordCount, Run, returns, overflows, len_words, State, none_yet, first_letter,
  in_word, eof, Counter, count_loop, count_words,
}
use os_tools_and_features.Words.Find.{occurs, add_word_lem}
use os_tools_and_features.Words.Number.{
  all_letters, is_gap, Item, word_of, good, all_good, text, open_text, letter-eof,
}

abbrev at : List WordCount → List ℕ → State → Run Counter
at ws word s = returns (record { wclist = ws; word = word; state = s })

module _ (k : ℕ) (ws : List WordCount) where
  count_loop-first :
      (c : ℕ) (cs : List ℕ)
      → isalpha c ≡ true
      → count_loop k (c ∷ cs) (at ws [] none_yet)
        ≡ count_loop k cs (at ws (tolower c ∷ []) first_letter)
  unfolding count_loop
  count_loop-first c cs h = rw (letter-eof c h, h) refl

  count_loop-second :
      (c : ℕ) (cs word : List ℕ)
      → isalpha c ≡ true
      → length word < 65
      → count_loop k (c ∷ cs) (at ws word first_letter)
        ≡ count_loop k cs (at ws (word ++ tolower c ∷ []) in_word)
  unfolding count_loop
  count_loop-second c cs word h l = rw (letter-eof c h, h, lt→ltb (length word) 65 l) refl

  count_loop-letters :
      (ls t word : List ℕ)
      → all_letters ls ≡ true
      → length word + length ls ≤ 65
      → count_loop k (ls ++ t) (at ws word in_word)
        ≡ count_loop k t (at ws (word ++ map tolower ls) in_word)
  unfolding count_loop
  count_loop-letters [] t word h l = rw (append-nil word) refl
  count_loop-letters (c ∷ cs) t word h l =
      rw (letter-eof c (ground arith), the_letter, lt→ltb (length word) 65 (omega arith))
        (count_loop-letters cs t (word ++ tolower c ∷ []) (ground arith)
            (omega (arith, length-append word (tolower c ∷ [])))
          ∙ ap (λ x. count_loop k t (at ws x in_word))
              (append_assoc word (tolower c ∷ []) (map tolower cs)))
    where
      the_letter : isalpha c ≡ true
      the_letter = ground arith

  count_loop-stop :
      (c : ℕ) (cs word : List ℕ)
      → isalpha c ≡ false
      → (c == eof) ≡ false
      → length word < 65
      → occurs word ws ≡ false
      → len_words ws ≤ k
      → count_loop k (c ∷ cs) (at ws word in_word)
        ≡ count_loop k cs (at (record { word = word; count = 1 } ∷ ws) [] none_yet)
  unfolding count_loop
  count_loop-stop c cs word h e l o f =
      rw (e, h, lt→ltb (length word) 65 l, (add_word_lem word ws).0 o k f) refl

  count_loop-gap :
      (gs t : List ℕ)
      → is_gap gs ≡ true
      → count_loop k (gs ++ t) (at ws [] none_yet) ≡ count_loop k t (at ws [] none_yet)
  unfolding count_loop
  count_loop-gap [] t h = refl
  count_loop-gap (c ∷ cs) t h = rw (no_letter, no_eof) (count_loop-gap cs t (ground arith))
    where
      no_letter : isalpha c ≡ false
      no_letter = ground arith

      no_eof : (c == eof) ≡ false
      no_eof = ground arith

-- The word as it is stored.
abbrev pub lower : Item → List ℕ
lower x = map tolower (word_of x)

abbrev pub entry : Item → WordCount
entry x = record { word = lower x; count = 1 }

-- The words are new to the list, differ from each other, and have 64 letters at most.
abbrev pub all_new : List WordCount → List Item → Bool
all_new ws [] = true
all_new ws (x ∷ xs) =
    not (occurs (lower x) ws) && ltb (length (word_of x)) 65 && all_new (entry x ∷ ws) xs

abbrev pub entries : List WordCount → List Item → List WordCount
entries ws [] = ws
entries ws (x ∷ xs) = entries (entry x ∷ ws) xs

length-map : (ls : List ℕ) → length (map tolower ls) ≡ length ls
length-map [] = refl
length-map (c ∷ cs) = omega (arith, length-map cs)

count_loop-item :
    (k : ℕ) (ws : List WordCount) (x : Item) (t : List ℕ)
    → good x ≡ true
    → occurs (lower x) ws ≡ false
    → length (word_of x) < 65
    → len_words ws ≤ k
    → count_loop k (word_of x ++ (x.stop ∷ (x.gap ++ t))) (at ws [] none_yet)
      ≡ count_loop k t (at (entry x ∷ ws) [] none_yet)
count_loop-item k ws x t h o l f =
    count_loop-first k ws x.first _ (ground arith)
    ∙ count_loop-second k ws x.second _ (tolower x.first ∷ []) (ground arith) (omega arith)
    ∙ count_loop-letters k ws x.others _ (tolower x.first ∷ tolower x.second ∷ []) (ground arith)
        (omega arith)
    ∙ count_loop-stop k ws x.stop _ (lower x) (ground arith) (ground arith)
        (omega (arith, length-map (word_of x))) o f
    ∙ count_loop-gap k (entry x ∷ ws) x.gap t (ground arith)

count_loop-text :
    (k : ℕ) (xs : List Item) (ws : List WordCount)
    → all_good xs ≡ true
    → all_new ws xs ≡ true
    → len_words ws + length xs ≤ k
    → count_loop k (text xs) (at ws [] none_yet) ≡ at (entries ws xs) [] none_yet
unfolding count_loop len_words
count_loop-text k [] ws h n f = refl
count_loop-text k (x ∷ xs) ws h n f =
    count_loop-item k ws x (text xs) (ground arith) (ground arith) (ground arith) (omega arith)
    ∙ count_loop-text k xs (entry x ∷ ws) (ground arith) (ground arith) (omega arith)

-- A text that ends in a word.
count_loop-last :
    (k : ℕ) (ws : List WordCount) (x : Item)
    → good x ≡ true
    → occurs (lower x) ws ≡ false
    → length (word_of x) < 65
    → len_words ws ≤ k
    → count_loop k (word_of x) (at ws [] none_yet) ≡ at (entry x ∷ ws) [] none_yet
unfolding count_loop
count_loop-last k ws x h o l f =
    count_loop-first k ws x.first (x.second ∷ x.others) (ground arith)
    ∙ count_loop-second k ws x.second x.others (tolower x.first ∷ []) (ground arith) (omega arith)
    ∙ ap (λ cs. count_loop k cs (at ws (tolower x.first ∷ tolower x.second ∷ []) in_word))
        (sym (append-nil x.others))
    ∙ count_loop-letters k ws x.others [] (tolower x.first ∷ tolower x.second ∷ []) (ground arith)
        (omega arith)
    ∙ rw
        (
          lt→ltb (length (lower x)) 65 (omega (arith, length-map (word_of x))),
          (add_word_lem (lower x) ws).0 o k f,
        )
        refl

count_loop-open :
    (k : ℕ) (xs : List Item) (ws : List WordCount)
    → all_good xs ≡ true
    → all_new ws xs ≡ true
    → len_words ws + length xs ≤ k
    → count_loop k (open_text xs) (at ws [] none_yet) ≡ at (entries ws xs) [] none_yet
unfolding count_loop len_words
count_loop-open k [] ws h n f = refl
count_loop-open k (x ∷ []) ws h n f =
    count_loop-last k ws x (ground arith) (ground arith) (ground arith) (omega arith)
count_loop-open k (x ∷ y ∷ ys) ws h n f =
    count_loop-item k ws x (open_text (y ∷ ys)) (ground arith) (ground arith) (ground arith)
      (omega arith)
    ∙ count_loop-open k (y ∷ ys) (entry x ∷ ws) (ground arith) (ground arith) (omega arith)

-- When the words of a text have from 2 to 64 letters, differ from each other and from those of the
-- list, and no byte is 255, count_words() returns the list with each of them, in lower case, put in
-- front with the count 1; it writes within its buffer, and the words of the list at the end are bound
-- enough for the rounds of find_word(). It does so whether a byte that is no letter follows the last
-- word or the text ends in it.
pub count_words-text :
    (k : ℕ) (ws : List WordCount) (gap : List ℕ) (xs : List Item)
    → is_gap gap ≡ true
    → all_good xs ≡ true
    → all_new ws xs ≡ true
    → len_words ws + length xs ≤ k
    → (count_words k ws (gap ++ text xs)
        ≡ returns (record { wclist = entries ws xs; word = []; state = none_yet }))
      × (count_words k ws (gap ++ open_text xs)
          ≡ returns (record { wclist = entries ws xs; word = []; state = none_yet }))
unfolding count_words
count_words-text k ws gap xs g h n f = (
  count_loop-gap k ws gap (text xs) g ∙ count_loop-text k xs ws h n f,
  count_loop-gap k ws gap (open_text xs) g ∙ count_loop-open k xs ws h n f,
)

count_loop-long :
    (k : ℕ) (ws : List WordCount) (ls t word : List ℕ)
    → all_letters ls ≡ true
    → 65 < length word + length ls
    → length word ≤ 65
    → count_loop k (ls ++ t) (at ws word in_word) ≡ overflows
unfolding count_loop
count_loop-long k ws [] t word h l s = ground arith
count_loop-long k ws (c ∷ cs) t word h l s = elim (Bool-cases (ltb (length word) 65)) [
  | inl fits ↦
      rw (count_loop, letter-eof c (ground arith), the_letter, fits)
        (count_loop-long k ws cs t (word ++ tolower c ∷ []) (ground arith)
          (omega (arith, length-append word (tolower c ∷ [])))
          (ground (arith, length-append word (tolower c ∷ []))))
  | inr full ↦ rw (count_loop, letter-eof c (ground arith), the_letter, full) refl
]
  where
    the_letter : isalpha c ≡ true
    the_letter = ground arith

-- When the first word of a text has more than 65 letters, count_words() writes behind the end of its
-- buffer.
pub count_words-overflows :
    (k : ℕ) (ws : List WordCount) (gap : List ℕ) (c d : ℕ) (ls t : List ℕ)
    → is_gap gap ≡ true
    → all_letters (c ∷ d ∷ ls) ≡ true
    → 65 < length (c ∷ d ∷ ls)
    → count_words k ws (gap ++ (c ∷ d ∷ (ls ++ t))) ≡ overflows
unfolding count_words
count_words-overflows k ws gap c d ls t g h l =
    count_loop-gap k ws gap (c ∷ d ∷ (ls ++ t)) g
    ∙ count_loop-first k ws c (d ∷ (ls ++ t)) (ground arith)
    ∙ count_loop-second k ws d (ls ++ t) (tolower c ∷ []) (ground arith) (omega arith)
    ∙ count_loop-long k ws ls t (tolower c ∷ tolower d ∷ []) (ground arith) (omega arith)
        (omega arith)
