-- ===== src/Shell/Tokenizer/Bounds.antt =====
-- hw-shell/tokenizer.c: the static buffer is never overrun, and which words come out.
use os_tools_and_features.Prelude.{
  subst, dec_lt, le→leb, lt→leb_false, ℕ, ◌+◌, ◌≤◌, ◌<◌, List, [], ◌∷◌, Option, none, some, ◌≡◌,
  refl, arith, length, length-append, All, All-append,
}
use os_tools_and_features.Shell.Tokenizer.{
  Bytes, Mode, normal, squote, dquote, Lexer, Advance, one, two, n_max, start, step, scan, flush,
  finish, check_full, after_last, tokenize,
}

-- A word that is not empty and fits the buffer with its final zero and a byte to spare.
abbrev pub Fits : Bytes → Type 0
Fits w = (0 < length w) × (length w + 1 < n_max)

pub record Inv (l : Lexer) : Type 0 where
  pub room : length l.token + 1 < n_max
  pub words : All Fits l.tokens

abbrev pub after : Advance → Lexer
after (one m) = m
after (two m) = m

-- After a round, before the test for a full buffer.
abbrev pub Round : Lexer → Lexer → Type 0
Round l m = (length m.token ≤ length l.token + 1) × All Fits m.tokens

flush-Round : (l : Lexer) → Inv l → Round l (flush l)
unfolding flush
flush-Round l v = ground (arith, All-append Fits l.tokens (l.token ∷ []) v.words)

pub step-Round :
    (m : Mode) (l : Lexer) (c : ℕ) (next : Option ℕ) → Inv l → Round l (after (step m l c next))
unfolding step
step-Round normal l c none v = ground (arith, flush-Round l v, length-append l.token (c ∷ []))
step-Round normal l c (some d) v =
    ground (arith, flush-Round l v, length-append l.token (c ∷ []), length-append l.token (d ∷ []))
step-Round squote l c none v = ground (arith, length-append l.token (c ∷ []))
step-Round squote l c (some d) v =
    ground (arith, length-append l.token (c ∷ []), length-append l.token (d ∷ []))
step-Round dquote l c none v = ground (arith, length-append l.token (c ∷ []))
step-Round dquote l c (some d) v =
    ground (arith, length-append l.token (c ∷ []), length-append l.token (d ∷ []))

-- Every word that a scan returns fits the buffer.
abbrev pub Returned : Option (List Bytes) → Type 0
Returned none = Unit
Returned (some ws) = All Fits ws

finish-Fits : (l : Lexer) → Inv l → All Fits (finish l)
finish-Fits l v = (flush-Round l v).1

check_full-Returned :
    (l m : Lexer) (rest : Option (List Bytes))
    → Round l m
    → (Inv m → Returned rest)
    → Returned (check_full m rest)
check_full-Returned l m rest r h = elim (dec_lt (length m.token + 1) n_max) [
  | yes fits ↦
      rw (lt→leb_false n_max (length m.token + 1) fits) (h (record { room = fits; words = r.1 }))
  | no full ↦ rw (le→leb n_max (length m.token + 1) (omega arith)) tt
]

after_last-Returned : (l : Lexer) (a : Advance) → Round l (after a) → Returned (after_last a)
after_last-Returned l (one m) r = check_full-Returned l m _ r (finish-Fits m)
after_last-Returned l (two m) r = check_full-Returned l m _ r (finish-Fits m)

scan-Returned : (l : Lexer) (line : Bytes) → Inv l → Returned (scan l line)
unfolding scan
scan-Returned l [] v = finish-Fits l v
scan-Returned l (c ∷ []) v =
    after_last-Returned l (step l.mode l c none) (step-Round l.mode l c none v)
scan-Returned l (c ∷ d ∷ rest) v =
    go (step l.mode l c (some d)) (step-Round l.mode l c (some d) v)
      (λ m. scan-Returned m (d ∷ rest)) (λ m. scan-Returned m rest)
  where
    go :
        (a : Advance)
        → Round l (after a)
        → ((m : Lexer) → Inv m → Returned (scan m (d ∷ rest)))
        → ((m : Lexer) → Inv m → Returned (scan m rest))
        → Returned (elim a [
          | one m ↦ check_full m (scan m (d ∷ rest))
          | two m ↦ check_full m (scan m rest)
        ])
    go (one m) r h k = check_full-Returned l m _ r (h m)
    go (two m) r h k = check_full-Returned l m _ r (k m)

-- Every word that `tokenize` returns has at least one byte and at most `n_max - 2`, so that it and
-- its final zero lie inside the static buffer.
pub tokenize-Fits : (line : Bytes) (ws : List Bytes) → tokenize line ≡ some ws → All Fits ws
unfolding tokenize
tokenize-Fits line ws e =
    subst Returned e (scan-Returned start line (record { room = omega arith; words = tt }))

flush-length : (l : Lexer) → length (flush l).token ≤ length l.token
unfolding flush
flush-length l = ground arith

step-length :
    (m : Mode) (l : Lexer) (c : ℕ) (next : Option ℕ)
    → length (after (step m l c next)).token ≤ length l.token + 1
unfolding step
step-length normal l c none = ground (arith, flush-length l, length-append l.token (c ∷ []))
step-length normal l c (some d) =
    ground (arith, flush-length l, length-append l.token (c ∷ []), length-append l.token (d ∷ []))
step-length _ l c none = ground (arith, length-append l.token (c ∷ []))
step-length _ l c (some d) =
    ground (arith, length-append l.token (c ∷ []), length-append l.token (d ∷ []))

pub check_full-some :
    (m : Lexer) (rest : Option (List Bytes)) → length m.token + 1 < n_max → check_full m rest ≡ rest
check_full-some m rest h = rw (lt→leb_false n_max (length m.token + 1) h)

Gives : Option (List Bytes) → Type 0
Gives r = (ws : List Bytes) × (r ≡ some ws)

after_last-Gives : (a : Advance) → length (after a).token + 1 < n_max → Gives (after_last a)
unfolding Gives
after_last-Gives (one m) h = (finish m, check_full-some m _ h)
after_last-Gives (two m) h = (finish m, check_full-some m _ h)

scan-Gives :
    (l : Lexer) (line : Bytes) → length l.token + length line + 1 < n_max → Gives (scan l line)
unfolding scan Gives
scan-Gives l [] h = (finish l, refl)
scan-Gives l (c ∷ []) h = after_last-Gives (step l.mode l c none) (omega (arith, bound))
  where
    bound : length (after (step l.mode l c none)).token ≤ length l.token + 1
    bound = step-length l.mode l c none
scan-Gives l (c ∷ d ∷ rest) h =
    go (step l.mode l c (some d)) (step-length l.mode l c (some d)) (λ m. scan-Gives m (d ∷ rest))
      (λ m. scan-Gives m rest)
  where
    go :
        (a : Advance)
        → length (after a).token ≤ length l.token + 1
        → ((m : Lexer) → length m.token + length (d ∷ rest) + 1 < n_max → Gives (scan m (d ∷ rest)))
        → ((m : Lexer) → length m.token + length rest + 1 < n_max → Gives (scan m rest))
        → Gives (elim a [
          | one m ↦ check_full m (scan m (d ∷ rest))
          | two m ↦ check_full m (scan m rest)
        ])
    go (one m) r f g = rw (check_full-some m (scan m (d ∷ rest)) (omega arith)) (f m (omega arith))
    go (two m) r f g = rw (check_full-some m (scan m rest) (omega arith)) (g m (omega arith))

-- A line of fewer than `n_max - 1` bytes never runs into abort(), whatever it holds.
pub tokenize_short :
    (line : Bytes) → length line + 1 < n_max → (ws : List Bytes) × (tokenize line ≡ some ws)
unfolding tokenize Gives
tokenize_short line h = scan-Gives start line (omega arith)
