-- ===== src/Strings/Tests.antt =====
-- proj-pregame/src/lib/string.c: the functions on the strings "a b" at 10, "ac" at 20 and " " at 30.
use os_tools_and_features.Prelude.{
  ℕ, ◌+◌, ◌-◌, ◌<◌, ◌≤◌, ◌≡◌, ◌⊎◌, inl, refl, List, [], ◌∷◌, length, ◌==◌, ltb, if◌then◌else◌,
  arith,
}
use os_tools_and_features.Prelude.Runs.{ok}
use os_tools_and_features.Strings.{
  strstr_loop, strlen, strlen_loop, memcmp, cmp_loop, rchr_loop, span_loop, strchr, strchr_loop,
  chr_loop, strnlen_loop, Bytes, memmove, strcmp, strlcpy, strtok_r, strstr, strrchr, strcspn,
  strspn, strpbrk, memchr, strnlen,
}
use os_tools_and_features.Strings.Text.{Text, order, strcmp-order}
use os_tools_and_features.Strings.Blocks.{Copies, memmove-Copies}
use os_tools_and_features.Strings.Copies.{take, strlcpy-Text}
use os_tools_and_features.Strings.Tokens.{Tokenized, trimmed, strtok_r-Tokenized}

abbrev memory : Bytes
memory p =
    if p == 10
    then 97
    else if p == 11
    then 32
    else if p == 12
    then 98
    else if p == 20
    then 97
    else if p == 21
    then 99
    else if p == 30
    then 32
    else 0

abbrev a_b : List ℕ
a_b = 97 ∷ 32 ∷ 98 ∷ []

abbrev a_c : List ℕ
a_c = 97 ∷ 99 ∷ []

abbrev space : List ℕ
space = 32 ∷ []

a_b-Text : Text memory 10 a_b
a_b-Text = (
  refl,
  omega arith,
  omega arith,
  (refl, omega arith, omega arith, (refl, omega arith, omega arith, refl)),
)

a_c-Text : Text memory 20 a_c
a_c-Text = (refl, omega arith, omega arith, (refl, omega arith, omega arith, refl))

space-Text : Text memory 30 space
space-Text = (refl, omega arith, omega arith, refl)

memmove-Copies_example :
    Copies (if ltb 11 10 then 11 + 3 else 11) memory 11 10 3 (memmove 11 10 3 memory)
memmove-Copies_example = memmove-Copies memory 11 10 3 (omega arith) (omega arith)

strcmp-order_example : strcmp 4 10 20 memory ≡ ok (order a_b a_c) memory
strcmp-order_example =
    strcmp-order memory 4 10 20 a_b a_c (omega arith) (omega arith) a_b-Text a_c-Text (omega arith)

strlcpy-Text_example :
    (g : Bytes) × (strlcpy 4 40 10 3 memory ≡ ok (length a_b) g)
    × Text g 40 (take (3 - 1) a_b)
    × ((p : ℕ) → (p < 40) ⊎ (40 + 3 ≤ p) → g p ≡ memory p)
strlcpy-Text_example =
    strlcpy-Text memory 4 40 10 3 a_b (omega arith) (omega arith) a_b-Text (omega arith)
      (inl (omega arith)) (omega arith)

strtok_r-Tokenized_example : Tokenized memory space (trimmed space a_b) (strtok_r 6 10 30 0 memory)
strtok_r-Tokenized_example =
    strtok_r-Tokenized memory 30 space space-Text (omega arith) 6 10 0 a_b a_b-Text (omega arith)
      (omega arith)

strstr_finds :
    strstr 5 10 20 (λ p. if p == 20 then 98 else if p == 21 then 0 else memory p)
    ≡ ok 12 (λ p. if p == 20 then 98 else if p == 21 then 0 else memory p)
unfolding strstr strstr_loop strlen strlen_loop memcmp cmp_loop
strstr_finds = refl

strrchr_finds : strrchr 5 20 99 memory ≡ ok 21 memory
unfolding strrchr rchr_loop
strrchr_finds = refl

strcspn_stops : strcspn 5 10 30 memory ≡ ok 1 memory
unfolding strcspn span_loop strchr strchr_loop
strcspn_stops = refl

strspn_stops : strspn 5 20 10 memory ≡ ok 1 memory
unfolding strspn span_loop strchr strchr_loop
strspn_stops = refl

strpbrk_finds : strpbrk 5 10 30 memory ≡ ok 11 memory
unfolding strpbrk strchr strchr_loop
strpbrk_finds = refl

memchr_finds : memchr 10 354 3 memory ≡ ok 12 memory
unfolding memchr chr_loop
memchr_finds = refl

strnlen_stops : strnlen 5 10 2 memory ≡ ok 2 memory
unfolding strnlen strnlen_loop
strnlen_stops = refl
