-- ===== src/Strings.antt =====
-- proj-pregame/src/lib/string.c: memory is a byte at each address, and a null pointer is 0. A failed
-- ASSERT is `panics`; the loops that end at a null byte run on fuel `k`.
pub mod Text
pub mod Blocks
pub mod Copies
pub mod Tokens
pub mod Tests
use os_tools_and_features.Prelude.{
  ℕ, zero, suc, ◌+◌, ◌-◌, ◌%◌, Bool, true, false, not, ◌&&◌, ◌||◌, ◌==◌, ltb, leb, if◌then◌else◌,
}
use os_tools_and_features.Prelude.Runs.{
  Run, ok, panics, running, Cmd, and_then, ◌>>=◌, ◌>>◌, pure, assert,
}

abbrev pub Bytes : Type 0
Bytes = ℕ → ℕ

abbrev pub null : ℕ
null = 0

abbrev pub load : ℕ → Cmd Bytes ℕ
load p m = ok (m p) m

abbrev pub store : ℕ → ℕ → Cmd Bytes (Unit {0})
store p b m = ok tt (λ q. if q == p then b else m q)

abbrev pub nonnull : ℕ → Bool
nonnull p = not (p == null)

-- The copying loops of memcpy() and of memmove().
unfoldable pub copy_up : ℕ → ℕ → ℕ → Cmd Bytes (Unit {0})
copy_up zero dst src = pure tt
copy_up (suc size) dst src = do b ← load src; store dst b; copy_up size (suc dst) (suc src)

unfoldable pub copy_down : ℕ → ℕ → ℕ → Cmd Bytes (Unit {0})
copy_down zero dst src = pure tt
copy_down (suc size) dst src = do
  b ← load (src + size)
  store (dst + size) b
  copy_down size dst src

unfoldable pub memcpy : ℕ → ℕ → ℕ → Cmd Bytes ℕ
memcpy dst src size = do
  assert (nonnull dst || size == 0)
  assert (nonnull src || size == 0)
  copy_up size dst src
  pure dst

-- What is returned is where the pointer `dst` stands at the end.
unfoldable pub memmove : ℕ → ℕ → ℕ → Cmd Bytes ℕ
memmove dst src size = do
  assert (nonnull dst || size == 0)
  assert (nonnull src || size == 0)
  if ltb dst src
      then (do copy_up size dst src; pure (dst + size))
      else (do copy_down size dst src; pure dst)

-- The results of a comparison: -1, 0 and +1.
pub data Sign : Type 0 where
  minus nought plus : Sign

unfoldable pub cmp_loop : ℕ → ℕ → ℕ → Cmd Bytes Sign
cmp_loop zero a b = pure nought
cmp_loop (suc size) a b = do
  x ← load a
  y ← load b
  if not (x == y) then pure (if ltb y x then plus else minus) else cmp_loop size (suc a) (suc b)

unfoldable pub memcmp : ℕ → ℕ → ℕ → Cmd Bytes Sign
memcmp a b size = do
  assert (nonnull a || size == 0)
  assert (nonnull b || size == 0)
  cmp_loop size a b

unfoldable pub strcmp_loop : ℕ → ℕ → ℕ → Cmd Bytes Sign
strcmp_loop zero a b = λ _. running
strcmp_loop (suc k) a b = do
  x ← load a
  y ← load b
  if not (x == 0) && x == y
      then strcmp_loop k (suc a) (suc b)
      else pure (if ltb x y then minus else if ltb y x then plus else nought)

unfoldable pub strcmp : ℕ → ℕ → ℕ → Cmd Bytes Sign
strcmp k a b = do assert (nonnull a); assert (nonnull b); strcmp_loop k a b

unfoldable pub chr_loop : ℕ → ℕ → ℕ → Cmd Bytes ℕ
chr_loop zero block ch = pure null
chr_loop (suc size) block ch = do
  b ← load block
  if b == ch then pure block else chr_loop size (suc block) ch

unfoldable pub memchr : ℕ → ℕ → ℕ → Cmd Bytes ℕ
memchr block ch size = do assert (nonnull block || size == 0); chr_loop size block (ch % 256)

unfoldable pub strchr_loop : ℕ → ℕ → ℕ → Cmd Bytes ℕ
strchr_loop zero string c = λ _. running
strchr_loop (suc k) string c = do
  b ← load string
  if b == c then pure string else (if b == 0 then pure null else strchr_loop k (suc string) c)

unfoldable pub strchr : ℕ → ℕ → ℕ → Cmd Bytes ℕ
strchr k string c = do assert (nonnull string); strchr_loop k string (c % 256)

-- strcspn() and strspn(): they stop at a character that is, or is not, in `set`.
unfoldable pub span_loop : Bool → ℕ → ℕ → ℕ → ℕ → Cmd Bytes ℕ
span_loop inside zero string set length = λ _. running
span_loop inside (suc k) string set length = do
  b ← load (string + length)
  if b == 0 then pure length else do
    p ← strchr (suc k) set b
    if (if inside then p == null else nonnull p)
        then pure length
        else span_loop inside k string set (suc length)

unfoldable pub strcspn : ℕ → ℕ → ℕ → Cmd Bytes ℕ
strcspn k string stop = span_loop false k string stop 0

unfoldable pub strspn : ℕ → ℕ → ℕ → Cmd Bytes ℕ
strspn k string skip = span_loop true k string skip 0

unfoldable pub strpbrk : ℕ → ℕ → ℕ → Cmd Bytes ℕ
strpbrk zero string stop = λ _. running
strpbrk (suc k) string stop = do
  b ← load string
  if b == 0 then pure null else do
    p ← strchr (suc k) stop b
    if nonnull p then pure string else strpbrk k (suc string) stop

unfoldable pub rchr_loop : ℕ → ℕ → ℕ → ℕ → Cmd Bytes ℕ
rchr_loop zero string c p = λ _. running
rchr_loop (suc k) string c p = do
  b ← load string
  if b == 0 then pure p else rchr_loop k (suc string) c (if b == c then string else p)

unfoldable pub strrchr : ℕ → ℕ → ℕ → Cmd Bytes ℕ
strrchr k string c = rchr_loop k string (c % 256) null

unfoldable pub strlen_loop : ℕ → ℕ → Cmd Bytes ℕ
strlen_loop zero p = λ _. running
strlen_loop (suc k) p = do b ← load p; if b == 0 then pure p else strlen_loop k (suc p)

unfoldable pub strlen : ℕ → ℕ → Cmd Bytes ℕ
strlen k string = do assert (nonnull string); p ← strlen_loop k string; pure (p - string)

unfoldable pub strnlen_loop : ℕ → ℕ → ℕ → ℕ → Cmd Bytes ℕ
strnlen_loop zero string maxlen length = λ _. running
strnlen_loop (suc k) string maxlen length = do
  b ← load (string + length)
  if not (b == 0) && ltb length maxlen
      then strnlen_loop k string maxlen (suc length)
      else pure length

unfoldable pub strnlen : ℕ → ℕ → ℕ → Cmd Bytes ℕ
strnlen k string maxlen = strnlen_loop k string maxlen 0

-- The loop of strstr(), for `n` places from `i` on.
unfoldable pub strstr_loop : ℕ → ℕ → ℕ → ℕ → ℕ → Cmd Bytes ℕ
strstr_loop zero i haystack needle needle_len = pure null
strstr_loop (suc n) i haystack needle needle_len = do
  s ← memcmp (haystack + i) needle needle_len
  elim s [
    | nought ↦ pure (haystack + i)
    | minus ↦ strstr_loop n (suc i) haystack needle needle_len
    | plus ↦ strstr_loop n (suc i) haystack needle needle_len
  ]

unfoldable pub strstr : ℕ → ℕ → ℕ → Cmd Bytes ℕ
strstr k haystack needle = do
  haystack_len ← strlen k haystack
  needle_len ← strlen k needle
  if leb needle_len haystack_len
      then strstr_loop (suc (haystack_len - needle_len)) 0 haystack needle needle_len
      else pure null

unfoldable pub set_loop : ℕ → ℕ → ℕ → Cmd Bytes (Unit {0})
set_loop zero dst value = pure tt
set_loop (suc size) dst value = do store dst value; set_loop size (suc dst) value

unfoldable pub memset : ℕ → ℕ → ℕ → Cmd Bytes ℕ
memset dst value size = do
  assert (nonnull dst || size == 0)
  set_loop size dst (value % 256)
  pure dst

abbrev pub lesser : ℕ → ℕ → ℕ
lesser a b = if ltb a b then a else b

unfoldable pub strlcpy : ℕ → ℕ → ℕ → ℕ → Cmd Bytes ℕ
strlcpy k dst src size = do
  assert (nonnull dst)
  assert (nonnull src)
  src_len ← strlen k src
  if ltb 0 size
      then (do
        d ← memcpy dst src (lesser src_len (size - 1))
        store (dst + lesser src_len (size - 1)) 0
        pure src_len)
      else pure src_len

unfoldable pub strlcat : ℕ → ℕ → ℕ → ℕ → Cmd Bytes ℕ
strlcat k dst src size = do
  assert (nonnull dst)
  assert (nonnull src)
  src_len ← strlen k src
  dst_len ← strlen k dst
  if ltb 0 size && ltb dst_len size
      then (do
        d ← memcpy (dst + dst_len) src (lesser src_len (size - dst_len - 1))
        store (dst + dst_len + lesser src_len (size - dst_len - 1)) 0
        pure (src_len + dst_len))
      else pure (src_len + dst_len)

-- The loops of strtok_r(): over delimiters, which tells whether it found the null byte, and over the
-- token.
pub record Skipped : Type 0 where
  pub at : ℕ
  pub ended : Bool

unfoldable pub skip_loop : ℕ → ℕ → ℕ → Cmd Bytes Skipped
skip_loop zero s delimiters = λ _. running
skip_loop (suc k) s delimiters = do
  b ← load s
  p ← strchr (suc k) delimiters b
  if nonnull p
      then (if b == 0
          then pure (record { at = s; ended = true })
          else skip_loop k (suc s) delimiters)
      else pure (record { at = s; ended = false })

unfoldable pub token_loop : ℕ → ℕ → ℕ → Cmd Bytes ℕ
token_loop zero s delimiters = λ _. running
token_loop (suc k) s delimiters = do
  b ← load s
  p ← strchr (suc k) delimiters b
  if p == null then token_loop k (suc s) delimiters else pure s

-- The token, or null, and what *SAVE_PTR is then.
pub record Token : Type 0 where
  pub token : ℕ
  pub save_ptr : ℕ

-- The part of strtok_r() that cuts the token off.
unfoldable pub cut_token : ℕ → ℕ → ℕ → Cmd Bytes Token
cut_token k token delimiters = do
  s ← token_loop k token delimiters
  c ← load s
  if not (c == 0)
      then (do store s 0; pure (record { token = token; save_ptr = suc s }))
      else pure (record { token = token; save_ptr = s })

unfoldable pub strtok_r : ℕ → ℕ → ℕ → ℕ → Cmd Bytes Token
strtok_r k string delimiters save_ptr = do
  assert (nonnull delimiters)
  assert (nonnull (if string == null then save_ptr else string))
  t ← skip_loop k (if string == null then save_ptr else string) delimiters
  if t.ended then pure (record { token = null; save_ptr = t.at }) else cut_token k t.at delimiters
