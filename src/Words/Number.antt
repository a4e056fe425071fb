-- ===== src/Words/Number.antt =====
-- hw-intro/words/main.c: counting the words of a text.
use os_tools_and_features.Prelude.{
  ℕ, suc, ◌+◌, ◌≡◌, ◌∙◌, refl, List, [], ◌∷◌, ◌++◌, length, Bool, true, false, not, ◌&&◌, ◌==◌,
  arith,
}
use os_tools_and_features.Words.{isalpha, none_yet, first_letter, in_word, eof, num_loop, num_words}

abbrev pub all_letters : List ℕ → Bool
all_letters [] = true
all_letters (c ∷ cs) = isalpha c && all_letters cs

-- Bytes between two words.
abbrev pub is_gap : List ℕ → Bool
is_gap [] = true
is_gap (c ∷ cs) = not (isalpha c) && not (c == eof) && is_gap cs

-- A word of two letters or more, and what separates it from the next one.
pub record Item : Type 0 where
  pub first : ℕ
  pub second : ℕ
  pub others : List ℕ
  pub stop : ℕ
  pub gap : List ℕ

abbrev pub word_of : Item → List ℕ
word_of x = x.first ∷ x.second ∷ x.others

abbrev pub good : Item → Bool
good x = all_letters (word_of x) && is_gap (x.stop ∷ x.gap)

abbrev pub all_good : List Item → Bool
all_good [] = true
all_good (x ∷ xs) = good x && all_good xs

abbrev pub text : List Item → List ℕ
text [] = []
text (x ∷ xs) = word_of x ++ (x.stop ∷ (x.gap ++ text xs))

-- The same, where the text ends in its last word.
abbrev pub open_text : List Item → List ℕ
open_text [] = []
open_text (x ∷ []) = word_of x
open_text (x ∷ y ∷ ys) = word_of x ++ (x.stop ∷ (x.gap ++ open_text (y ∷ ys)))

num_loop-letters :
    (ls t : List ℕ) (n : ℕ)
    → all_letters ls ≡ true
    → num_loop (ls ++ t) (in_word, n) ≡ num_loop t (in_word, n)
unfolding num_loop
num_loop-letters [] t n h = refl
num_loop-letters (c ∷ cs) t n h = ground (arith, num_loop-letters cs t n)

num_loop-gap :
    (gs t : List ℕ) (n : ℕ)
    → is_gap gs ≡ true
    → num_loop (gs ++ t) (none_yet, n) ≡ num_loop t (none_yet, n)
unfolding num_loop
num_loop-gap [] t n h = refl
num_loop-gap (c ∷ cs) t n h = ground (arith, num_loop-gap cs t n)

pub letter-eof : (c : ℕ) → isalpha c ≡ true → (c == eof) ≡ false
letter-eof c h = ground arith

num_loop-first :
    (c : ℕ) (cs : List ℕ) (n : ℕ)
    → isalpha c ≡ true
    → num_loop (c ∷ cs) (none_yet, n) ≡ num_loop cs (first_letter, n)
unfolding num_loop
num_loop-first c cs n h = rw (letter-eof c h, h) refl

num_loop-second :
    (c : ℕ) (cs : List ℕ) (n : ℕ)
    → isalpha c ≡ true
    → num_loop (c ∷ cs) (first_letter, n) ≡ num_loop cs (in_word, suc n)
unfolding num_loop
num_loop-second c cs n h = rw (letter-eof c h, h) refl

num_loop-stop :
    (c : ℕ) (cs : List ℕ) (n : ℕ)
    → isalpha c ≡ false
    → (c == eof) ≡ false
    → num_loop (c ∷ cs) (in_word, n) ≡ num_loop cs (none_yet, n)
unfolding num_loop
num_loop-stop c cs n h e = rw (e, h) refl

num_loop-item :
    (x : Item) (t : List ℕ) (n : ℕ)
    → good x ≡ true
    → num_loop (word_of x ++ (x.stop ∷ (x.gap ++ t))) (none_yet, n) ≡ num_loop t (none_yet, suc n)
num_loop-item x t n h =
    num_loop-first x.first _ n (ground arith)
    ∙ num_loop-second x.second _ n (ground arith)
    ∙ num_loop-letters x.others _ (suc n) (ground arith)
    ∙ num_loop-stop x.stop _ (suc n) (ground arith) (ground arith)
    ∙ num_loop-gap x.gap t (suc n) (ground arith)

num_loop-text :
    (xs : List Item) (n : ℕ) → all_good xs ≡ true → num_loop (text xs) (none_yet, n) ≡ n + length xs
unfolding num_loop
num_loop-text [] n h = omega arith
num_loop-text (x ∷ xs) n h =
    num_loop-item x (text xs) n (ground arith)
    ∙ num_loop-text xs (suc n) (ground arith)
    ∙ omega arith

-- num_words() of a text gives the number of its words, when each has two letters or more, each is
-- followed by a byte that is no letter, and no byte is 255, which reads as EOF.
pub num_words-text :
    (gap : List ℕ) (xs : List Item)
    → is_gap gap ≡ true
    → all_good xs ≡ true
    → num_words (gap ++ text xs) ≡ length xs
unfolding num_words
num_words-text gap xs g h = num_loop-gap gap (text xs) 0 g ∙ num_loop-text xs 0 h ∙ omega arith
