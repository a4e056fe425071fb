-- ===== src/Words.antt =====
-- hw-intro/words/word_count.c and main.c: the words of a text and how often each occurs. A text is the
-- list of its bytes; a loop that may not end runs on fuel.
pub mod Find
pub mod Order
pub mod Number
pub mod Count
pub mod Tests
use os_tools_and_features.Prelude.{
  ℕ, zero, suc, ◌+◌, List, [], ◌∷◌, ◌++◌, length, Option, none, some, Bool, true, false, not, ◌&&◌,
  ◌||◌, ◌==◌, ltb, leb, if◌then◌else◌,
}

-- isalpha() and tolower() of the C locale.
abbrev pub isalpha : ℕ → Bool
isalpha c = leb b'A' c && leb c b'Z' || leb b'a' c && leb c b'z'

abbrev pub tolower : ℕ → ℕ
tolower c = if leb b'A' c && leb c b'Z' then c + 32 else c

-- The sign of what strcmp() returns.
pub data Sign : Type 0 where
  negative equal positive : Sign

pub strcmp : List ℕ → List ℕ → Sign
strcmp [] [] = equal
strcmp [] (d ∷ ds) = negative
strcmp (c ∷ cs) [] = positive
strcmp (c ∷ cs) (d ∷ ds) =
    let rest = strcmp cs ds in if ltb c d then negative else if ltb d c then positive else rest

abbrev pub is_zero : Sign → Bool
is_zero equal = true
is_zero _ = false

pub record WordCount : Type 0 where
  pub word : List ℕ
  pub count : ℕ

pub data Run (A : Type 0) : Type 0 where
  returns : A → Run A
  running overflows : Run A

pub len_words : List WordCount → ℕ
len_words [] = 0
len_words (w ∷ ws) = suc (len_words ws)

-- The loop of find_word(): `wchead` is the node at the place `i`, and `wc` the place of the node found.
pub find_loop : ℕ → List ℕ → ℕ → List WordCount → Option ℕ → Run (Option ℕ)
find_loop k word i [] wc = returns wc
find_loop zero word i (w ∷ ws) wc = running
find_loop (suc k) word i (w ∷ ws) wc = elim (is_zero (strcmp w.word word)) [
  | false ↦ find_loop k word (suc i) ws wc
  | true ↦ find_loop k word i (w ∷ ws) (some i)
]

pub find_word : ℕ → List WordCount → List ℕ → Run (Option ℕ)
unfolding find_loop
find_word k wchead word = find_loop k word 0 wchead none

abbrev pub bump : ℕ → List WordCount → List WordCount
bump i [] = []
bump zero (w ∷ ws) = record w { count = suc w.count } ∷ ws
bump (suc i) (w ∷ ws) = w ∷ bump i ws

abbrev pub count_found : List WordCount → List ℕ → Run (Option ℕ) → Run (List WordCount)
count_found wclist word (returns (some i)) = returns (bump i wclist)
count_found wclist word (returns none) = returns (record { word = word; count = 1 } ∷ wclist)
count_found wclist word running = running
count_found wclist word overflows = overflows

pub add_word : ℕ → List WordCount → List ℕ → Run (List WordCount)
unfolding find_word
add_word k wclist word = count_found wclist word (find_word k wclist word)

-- The state of the two counters: no letter, one letter, or more have been seen.
pub data State : Type 0 where
  none_yet first_letter in_word : State

abbrev pub num_step : State → ℕ → ℕ → State × ℕ
num_step none_yet n c = if isalpha c then (first_letter, n) else (none_yet, n)
num_step first_letter n c = if isalpha c then (in_word, suc n) else (first_letter, n)
num_step in_word n c = if isalpha c then (in_word, n) else (none_yet, n)

-- EOF, read into a char, is also the byte 255.
abbrev pub eof : ℕ
eof = 255

pub num_loop : List ℕ → State × ℕ → ℕ
num_loop [] (s, n) = n
num_loop (c ∷ cs) (s, n) = let rest = num_loop cs (num_step s n c) in if c == eof then n else rest

pub num_words : List ℕ → ℕ
unfolding num_loop
num_words infile = num_loop infile (none_yet, 0)

abbrev pub max_word_len : ℕ
max_word_len = 64

-- word[index] = c, where the bytes up to `index` are `word`.
abbrev pub store : List ℕ → ℕ → Run (List ℕ)
store word c = if ltb (length word) (max_word_len + 1) then returns (word ++ c ∷ []) else overflows

pub record Counter : Type 0 where
  pub wclist : List WordCount
  pub word : List ℕ
  pub state : State

abbrev pub stored : Counter → State → Run (List ℕ) → Run Counter
stored r s (returns word) = returns (record r { word = word; state = s })
stored r s running = running
stored r s overflows = overflows

abbrev pub added : Counter → Run (List WordCount) → Run Counter
added r (returns wclist) = returns (record { wclist = wclist; word = []; state = none_yet })
added r running = running
added r overflows = overflows

-- word[index] = '\0' and add_word().
abbrev pub end_word : ℕ → Counter → Run Counter
end_word k r =
    if ltb (length r.word) (max_word_len + 1)
    then added r (add_word k r.wclist r.word)
    else overflows

abbrev pub count_step : ℕ → State → Counter → ℕ → Run Counter
count_step k none_yet r c =
    if isalpha c then stored r first_letter (store r.word (tolower c)) else returns r
count_step k first_letter r c =
    if isalpha c
    then stored r in_word (store r.word (tolower c))
    else returns (record r { word = [] })
count_step k in_word r c =
    if isalpha c then stored r in_word (store r.word (tolower c)) else end_word k r

abbrev pub count_end : ℕ → State → Counter → Run Counter
count_end k in_word r = end_word k r
count_end k _ r = returns r

-- `k` bounds the rounds of each call of find_word().
pub count_loop : ℕ → List ℕ → Run Counter → Run Counter
count_loop k cs running = running
count_loop k cs overflows = overflows
count_loop k [] (returns r) = count_end k r.state r
count_loop k (c ∷ cs) (returns r) =
    let rest = count_loop k cs (count_step k r.state r c) in
    if c == eof then count_end k r.state r else rest

pub count_words : ℕ → List WordCount → List ℕ → Run Counter
unfolding count_loop
count_words k wclist infile =
    count_loop k infile (returns (record { wclist = wclist; word = []; state = none_yet }))

pub wordcount_less : WordCount → WordCount → Bool
unfolding strcmp
wordcount_less wc1 wc2 =
    if ltb wc1.count wc2.count
    then true
    else if wc1.count == wc2.count
    then less (strcmp wc1.word wc2.word)
    else false
  where
    less : Sign → Bool
    less negative = true
    less _ = false
