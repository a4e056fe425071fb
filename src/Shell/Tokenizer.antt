-- ===== src/Shell/Tokenizer.antt =====
-- hw-shell/tokenizer.c: a command line is cut into words, with quotes and backslashes.
pub mod Bounds
pub mod RoundTrip
mod Tests
use os_tools_and_features.Prelude.{
  ℕ, ◌+◌, List, [], ◌∷◌, ◌++◌, Option, none, some, Bool, true, ◌||◌, ◌&&◌, ◌==◌, leb, ltb, length,
  if◌then◌else◌,
}

-- A C string without its final zero.
abbrev pub Bytes : Type 0
Bytes = List ℕ

pub data Mode : Type 0 where
  normal squote dquote : Mode

-- `token` holds the first `n` bytes of the static buffer, `tokens` the vector of words.
pub record Lexer : Type 0 where
  pub mode : Mode
  pub token : Bytes
  pub tokens : List Bytes

-- The size of the static buffer.
abbrev pub n_max : ℕ
n_max = 4096

-- isspace() in the C locale.
unfoldable pub isspace : ℕ → Bool
isspace c = c == 32 || (leb 9 c && leb c 13)

-- token[n++] = c
abbrev pub put : ℕ → Lexer → Lexer
put c l = record l { token = l.token ++ c ∷ [] }

-- copy_word() and vector_push() of the token, if there is one; n = 0.
pub flush : Lexer → Lexer
flush l =
    if ltb 0 (length l.token) then record l { token = []; tokens = l.tokens ++ l.token ∷ [] } else l

-- How far the index moves in one round of the loop: past one byte, or past two.
pub data Advance : Type 0 where
  one two : Lexer → Advance

-- A backslash takes the next byte, if there is one.
pub escape : Lexer → Option ℕ → Advance
escape l none = one l
escape l (some d) = two (put d l)

-- The body of the loop, for the byte `c` and the byte behind it.
pub step : Mode → Lexer → ℕ → Option ℕ → Advance
unfolding escape flush isspace
step normal l c next =
    if c == b'\''
    then one (record l { mode = squote })
    else if c == b'"'
    then one (record l { mode = dquote })
    else if c == b'\\'
    then escape l next
    else if isspace c
    then one (flush l)
    else one (put c l)
step squote l c next =
    if c == b'\''
    then one (record l { mode = normal })
    else if c == b'\\'
    then escape l next
    else one (put c l)
step dquote l c next =
    if c == b'"'
    then one (record l { mode = normal })
    else if c == b'\\'
    then escape l next
    else one (put c l)

-- `none` stands for abort().
abbrev pub check_full : Lexer → Option (List Bytes) → Option (List Bytes)
check_full l rest = if leb n_max (length l.token + 1) then none else rest

-- What follows the loop.
abbrev pub finish : Lexer → List Bytes
finish l = (flush l).tokens

abbrev pub after_last : Advance → Option (List Bytes)
after_last (one l) = check_full l (some (finish l))
after_last (two l) = check_full l (some (finish l))

pub scan : Lexer → Bytes → Option (List Bytes)
unfolding step
scan l [] = some (finish l)
scan l (c ∷ []) = after_last (step l.mode l c none)
scan l (c ∷ d ∷ rest) = elim (step l.mode l c (some d)) [
  | one m ↦ check_full m (scan m (d ∷ rest))
  | two m ↦ check_full m (scan m rest)
]

abbrev pub start : Lexer
start = record { mode = normal; token = []; tokens = [] }

pub tokenize : Bytes → Option (List Bytes)
unfolding scan
tokenize line = scan start line
