-- ===== src/Shell/Tokenizer/RoundTrip.antt =====
-- hw-shell/tokenizer.c: words that are quoted in any of the three styles are read back.
use os_tools_and_features.Prelude.{
  ℕ, ◌+◌, ◌<◌, List, [], ◌∷◌, ◌++◌, Option, none, some, ◌≡◌, refl, ap, ◌∙◌, arith, inl, inr, ◌≢◌,
  Bool-cases, true, false, ◌||◌, ◌==◌, if◌then◌else◌, map, length, length-append, All, append-nil,
  append_assoc,
}
use os_tools_and_features.Shell.Tokenizer.{
  Bytes, Mode, normal, squote, dquote, Lexer, one, two, n_max, put, step, scan, flush, tokenize,
  isspace,
}
use os_tools_and_features.Shell.Tokenizer.Bounds.{Fits, check_full-some}

abbrev pub quote_of : Mode → ℕ
quote_of normal = b'\\'
quote_of squote = b'\''
quote_of dquote = b'"'

-- A byte as it is written between two quotes, or outside of quotes, where each is escaped.
abbrev pub write_byte : Mode → ℕ → Bytes → Bytes
write_byte normal c rest = b'\\' ∷ c ∷ rest
write_byte m c rest = if c == quote_of m || c == b'\\' then b'\\' ∷ c ∷ rest else c ∷ rest

abbrev pub write_bytes : Mode → Bytes → Bytes → Bytes
write_bytes m [] rest = rest
write_bytes m (c ∷ w) rest = write_byte m c (write_bytes m w rest)

-- A word in one of the styles, and the blank behind it.
pub record Item : Type 0 where
  pub style : Mode
  pub word : Bytes
  pub gap : ℕ

abbrev pub write_word : Mode → Bytes → Bytes → Bytes
write_word normal w rest = write_bytes normal w rest
write_word m w rest = quote_of m ∷ write_bytes m w (quote_of m ∷ rest)

abbrev pub write_line : List Item → Bytes
write_line [] = []
write_line (i ∷ is) = write_word i.style i.word (i.gap ∷ write_line is)

abbrev pub IsItem : Item → Type 0
IsItem i = Fits i.word × (isspace i.gap ≡ true)

abbrev lexer : Mode → Bytes → List Bytes → Lexer
lexer m t ws = record { mode = m; token = t; tokens = ws }

scan-one :
    (l m : Lexer) (c : ℕ) (rest : Bytes)
    → ((next : Option ℕ) → step l.mode l c next ≡ one m)
    → length m.token + 1 < n_max
    → scan l (c ∷ rest) ≡ scan m rest
unfolding scan
scan-one l m c [] h k = rw (h none, check_full-some m _ k)
scan-one l m c (d ∷ rest) h k = rw (h (some d), scan) (check_full-some m _ k)

scan-two :
    (l m : Lexer) (c d : ℕ) (rest : Bytes)
    → step l.mode l c (some d) ≡ two m
    → length m.token + 1 < n_max
    → scan l (c ∷ d ∷ rest) ≡ scan m rest
unfolding scan
scan-two l m c d rest h k = rw (h, scan) (check_full-some m _ k)

step_backslash : (m : Mode) (l : Lexer) (d : ℕ) → step m l b'\\' (some d) ≡ two (put d l)
unfolding step
step_backslash normal l d = refl
step_backslash squote l d = refl
step_backslash dquote l d = refl

step_plain :
    (m : Mode) (l : Lexer) (c : ℕ) (next : Option ℕ)
    → m ≢ normal
    → (c == quote_of m || c == b'\\') ≡ false
    → step m l c next ≡ one (put c l)
unfolding step
step_plain normal l c next h k = absurd (h refl)
step_plain squote l c next h k = ground arith
step_plain dquote l c next h k = ground arith

scan-write_byte :
    (m : Mode) (t : Bytes) (ws : List Bytes) (c : ℕ) (rest : Bytes)
    → length (t ++ c ∷ []) + 1 < n_max
    → scan (lexer m t ws) (write_byte m c rest) ≡ scan (lexer m (t ++ c ∷ []) ws) rest
scan-write_byte normal t ws c rest h = scan-two _ _ b'\\' c rest (step_backslash normal _ c) h
scan-write_byte squote t ws c rest h = elim (Bool-cases (c == b'\'' || c == b'\\')) [
  | inl e ↦ rw e (scan-two _ _ b'\\' c rest (step_backslash squote _ c) h)
  | inr e ↦ rw e (scan-one _ _ c rest (λ next. step_plain squote _ c next (λ x. cc) e) h)
]
scan-write_byte dquote t ws c rest h = elim (Bool-cases (c == b'"' || c == b'\\')) [
  | inl e ↦ rw e (scan-two _ _ b'\\' c rest (step_backslash dquote _ c) h)
  | inr e ↦ rw e (scan-one _ _ c rest (λ next. step_plain dquote _ c next (λ x. cc) e) h)
]

scan-write_bytes :
    (m : Mode) (w t : Bytes) (ws : List Bytes) (rest : Bytes)
    → length t + length w + 1 < n_max
    → scan (lexer m t ws) (write_bytes m w rest) ≡ scan (lexer m (t ++ w) ws) rest
scan-write_bytes m [] t ws rest h = rw append-nil refl
scan-write_bytes m (c ∷ w) t ws rest h =
    scan-write_byte m t ws c (write_bytes m w rest) (omega (arith, length-append t (c ∷ [])))
    ∙ scan-write_bytes m w (t ++ c ∷ []) ws rest (omega (arith, length-append t (c ∷ [])))
    ∙ rw (append_assoc t (c ∷ []) w)

scan-write_word :
    (m : Mode) (w : Bytes) (ws : List Bytes) (rest : Bytes)
    → Fits w
    → scan (lexer normal [] ws) (write_word m w rest) ≡ scan (lexer normal w ws) rest
unfolding step
scan-write_word normal w ws rest f = scan-write_bytes normal w [] ws rest (omega arith)
scan-write_word squote w ws rest f =
    scan-one _ _ b'\'' _ (λ next. refl) (omega arith)
    ∙ scan-write_bytes squote w [] ws (b'\'' ∷ rest) (omega arith)
    ∙ scan-one _ (lexer normal w ws) b'\'' rest (λ next. refl) (omega arith)
scan-write_word dquote w ws rest f =
    scan-one _ _ b'"' _ (λ next. refl) (omega arith)
    ∙ scan-write_bytes dquote w [] ws (b'"' ∷ rest) (omega arith)
    ∙ scan-one _ (lexer normal w ws) b'"' rest (λ next. refl) (omega arith)

step_blank :
    (w : Bytes) (ws : List Bytes) (c : ℕ) (next : Option ℕ)
    → isspace c ≡ true
    → 0 < length w
    → step normal (lexer normal w ws) c next ≡ one (lexer normal [] (ws ++ w ∷ []))
unfolding step
step_blank w ws c next h k = ground arith

scan-write_line :
    (is : List Item) (ws : List Bytes)
    → All IsItem is
    → scan (lexer normal [] ws) (write_line is) ≡ some (ws ++ map (λ i. i.word) is)
unfolding scan flush
scan-write_line [] ws h = rw append-nil refl
scan-write_line (i ∷ is) ws ((f, b), h) =
    scan-write_word i.style i.word ws _ f
    ∙ scan-one _ _ i.gap _ (λ next. step_blank i.word ws i.gap next b f.0) (omega arith)
    ∙ scan-write_line is (ws ++ i.word ∷ []) h
    ∙ ap some (append_assoc ws (i.word ∷ []) (map (λ i. i.word) is))

-- Words of 1 to `n_max - 2` arbitrary bytes, each written bare with a backslash before every byte,
-- or between single or double quotes with one before quotes and backslashes, and each followed by
-- a blank, are what `tokenize` returns for the line, in order.
pub tokenize-write_line :
    (is : List Item) → All IsItem is → tokenize (write_line is) ≡ some (map (λ i. i.word) is)
unfolding tokenize
tokenize-write_line is h = scan-write_line is [] h
