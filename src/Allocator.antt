-- ===== src/Allocator.antt =====
-- hw-memory/mm_alloc/mm_alloc.c over an explicit memory: the headers of the blocks by address, and
-- the bytes of their payloads. A pointer is its address; the machine has 32 bits, so that a header
-- (size, free, next, prev) takes 16 bytes. An access to a header that is not there is a fault.
pub mod Cells
pub mod Place
pub mod Search
pub mod Malloc
pub mod Free
pub mod Release
pub mod FreeList
pub mod Freed
pub mod Tests
pub mod Used
use os_tools_and_features.Prelude.{
  ℕ, zero, suc, ◌+◌, ◌-◌, ◌%◌, ◌^◌, ◌≡◌, List, [], ◌∷◌, Option, none, some, Bool, true, false, ◌&&◌,
  ◌||◌, not, ◌==◌, leb, ltb, length, if◌then◌else◌, get_elem?,
}
use mathlib.Core.Option.{get_or}

abbrev pub Ptr : Type 0
Ptr = ℕ

abbrev pub null : Ptr
null = 0

-- sizeof(Block), which is also offsetof(Block, ptr).
abbrev pub header_size : ℕ
header_size = 16

-- (void *) -1
abbrev pub minus_one : Ptr
minus_one = 2 ^ 32 - 1

pub record Block : Type 0 where
  pub size : ℕ
  pub free : ℕ
  pub next : Ptr
  pub prev : Ptr

abbrev pub block : ℕ → ℕ → Ptr → Ptr → Block
block s f n p = record { size = s; free = f; next = n; prev = p }

-- The globals of mm_alloc.c, the memory, and the program break that the system keeps.
pub record Heap : Type 0 where
  pub first : ℕ
  pub base : Ptr
  pub end : Ptr
  pub node : Ptr → Option Block
  pub byte : Ptr → ℕ
  pub break : Ptr

-- sbrk() of the system: at a break, for the 32 bits of an increment, the address that it returns, or a
-- failure. It returns the previous break, which then moves by the increment.
pub record Os : Type 0 where
  pub sbrk : Ptr → ℕ → Option Ptr
  pub previous_break : (b n a : ℕ) → sbrk b n ≡ some a → a ≡ b

-- A run ends with a value and a memory, touches what is no block, or has used up its rounds.
pub data Run (A : Type 0) : Type 0 where
  ok : A → Heap → Run A
  fault : Run A
  out_of_fuel : Run A

abbrev pub Cmd : Type 0 → Type 0
Cmd A = Heap → Run A

abbrev pub and_then : {A B : Type 0} → Run A → (A → Cmd B) → Run B
and_then (ok a h) f = f a h
and_then fault f = fault
and_then out_of_fuel f = out_of_fuel

infixl 5 ◌>>=◌ ◌>>◌
abbrev pub ◌>>=◌ : {A B : Type 0} → Cmd A → (A → Cmd B) → Cmd B
◌>>=◌ m f h = and_then (m h) f

abbrev pub ◌>>◌ : {B : Type 0} → Cmd (Unit {0}) → Cmd B → Cmd B
m >> k = m >>= λ _. k

abbrev pub pure : {A : Type 0} → A → Cmd A
pure a h = ok a h

abbrev pub get : Cmd Heap
get h = ok h h

abbrev pub skip : Cmd (Unit {0})
skip h = ok tt h

abbrev pub update {ℓ} : {A : Type ℓ} → (Ptr → A) → Ptr → A → Ptr → A
update f p a q = if p == q then a else f q

pub load : Ptr → Cmd Block
load p h = elim (h.node p) [ some b ↦ ok b h | none ↦ fault ]

-- A header is made of raw memory.
abbrev pub store : Ptr → Block → Cmd (Unit {0})
store p b h = ok tt (record h { node = update h.node p (some b) })

-- An assignment to one member of a block.
pub modify : Ptr → (Block → Block) → Cmd (Unit {0})
modify p f = do b ← load p; store p (f b)

abbrev pub set_next : Ptr → Ptr → Cmd (Unit {0})
set_next p n = modify p (λ b. record b { next = n })

abbrev pub set_prev : Ptr → Ptr → Cmd (Unit {0})
set_prev p q = modify p (λ b. record b { prev = q })

abbrev pub set_size : Ptr → ℕ → Cmd (Unit {0})
set_size p s = modify p (λ b. record b { size = s })

abbrev pub set_free : Ptr → ℕ → Cmd (Unit {0})
set_free p f = modify p (λ b. record b { free = f })

abbrev pub set_end : Ptr → Cmd (Unit {0})
set_end p h = ok tt (record h { end = p })

abbrev pub set_base : Ptr → Cmd (Unit {0})
set_base p h = ok tt (record h { base = p })

abbrev pub set_first : ℕ → Cmd (Unit {0})
set_first n h = ok tt (record h { first = n })

abbrev pub within : Ptr → ℕ → Ptr → Bool
within p n a = leb p a && ltb a (p + n)

-- memset(p, 0, n): the bytes are zero, and no header that lay there, even in part, is left.
pub memset : Ptr → ℕ → Cmd (Unit {0})
memset p n h = ok tt (record h {
  node = λ a. if ltb p (a + header_size) && ltb a (p + n) then none else h.node a;
  byte = λ a. if within p n a then 0 else h.byte a;
})

-- memcpy(buffer, p, n) into a fresh buffer.
abbrev pub bytes_at : (Ptr → ℕ) → Ptr → ℕ → List ℕ
bytes_at byte p zero = []
bytes_at byte p (suc n) = byte p ∷ bytes_at byte (p + 1) n

pub read_bytes : Ptr → ℕ → Cmd (List ℕ)
read_bytes p n h = ok (bytes_at h.byte p n) h

-- memcpy(p, buffer, n); a read behind the end of the buffer is a fault, and a write to null.
pub write_bytes : Ptr → List ℕ → ℕ → Cmd (Unit {0})
write_bytes p buffer n h =
    if p == null || ltb (length buffer) n
    then fault
    else ok tt (record h {
      byte = λ a. if within p n a then get_or (get_elem? buffer (a - p)) 0 else h.byte a;
    })

-- The break moved by the 32 bits of an increment: sbrk() takes an intptr_t, so that from 2^31 on they
-- stand for a negative number, and the break moves down.
abbrev pub moved_break : Ptr → ℕ → Ptr
moved_break a n = if ltb n (2 ^ 31) then a + n else a - (2 ^ 32 - n)

-- sbrk(n), where `n` is a sum in a 32-bit size_t.
pub grow : Os → ℕ → Cmd (Option Ptr)
grow os n h = elim (os.sbrk h.break (n % 2 ^ 32)) [
  | none ↦ ok none h
  | some a ↦ ok (some a) (record h { break = moved_break a (n % 2 ^ 32) })
]

-- The first call: `first` is cleared and `base` assigned before the result is looked at.
pub first_block : Os → ℕ → Cmd Ptr
unfolding memset
first_block os size = do
  set_first 0
  got ← grow os (size + header_size)
  elim got [
    | none ↦ (do set_base minus_one; pure null)
    | some a ↦ do
      set_base a
      store a (block size 0 null null)
      set_end a
      memset (a + header_size) size
      pure (a + header_size)
  ]

-- A free block `b` that has room for another block behind `size` bytes is cut in two.
pub split : ℕ → Ptr → Block → Cmd Ptr
unfolding modify memset
split size b c = do
  let new = b + header_size + size
  store new (block (c.size - header_size - size) 1 c.next b)
  if c.next == null then skip else set_prev c.next new
  set_next b new
  if c.next == null then set_end new else skip
  memset (new + header_size) (c.size - header_size - size)
  set_size b size
  set_free b 0
  memset (b + header_size) size
  pure (b + header_size)

-- One that has not is taken whole.
pub take_whole : Ptr → Block → Cmd Ptr
unfolding modify memset
take_whole b c = do set_free b 0; memset (b + header_size) c.size; pure (b + header_size)

abbrev pub fits : ℕ → Block → Bool
fits size c = c.free == 1 && leb size c.size

-- The loop over the blocks, and the result that it returns from, if it does.
pub search : ℕ → ℕ → Ptr → Cmd (Option Ptr)
unfolding split take_whole
search zero size b = λ _. out_of_fuel
search (suc k) size b = if b == null then pure none else do
  c ← load b
  if fits size c
      then (do
        p ← if leb header_size (c.size - size) then split size b c else take_whole b c
        pure (some p))
      else search k size c.next

-- What follows the loop: a new block behind `end`.
pub append_block : Os → ℕ → Cmd Ptr
unfolding modify memset
append_block os size = do
  h ← get
  got ← grow os (size + header_size)
  elim got [
    | none ↦ pure null
    | some new ↦ do
      store new (block size 0 null h.end)
      set_next h.end new
      set_end new
      memset (new + header_size) size
      pure (new + header_size)
  ]

-- The result of the loop, or else that of what follows it.
abbrev pub malloc_result : Os → ℕ → Option Ptr → Cmd Ptr
malloc_result os size (some p) = pure p
malloc_result os size none = append_block os size

-- The loop runs on `fuel` rounds.
pub mm_malloc : Os → ℕ → ℕ → Cmd Ptr
mm_malloc os fuel size = if size == 0 then pure null else do
  h ← get
  if h.first == 1
      then first_block os size
      else do found ← search fuel size h.base; malloc_result os size found

-- Is there a free block at `p`?
pub is_free : Ptr → Cmd Bool
is_free p = if p == null then pure false else do c ← load p; pure (c.free == 1)

-- The first half of mm_free(): a free neighbour in front takes the block in.
pub merge_prev : Ptr → Cmd Ptr
unfolding modify is_free
merge_prev b = do
  c ← load b
  joins ← is_free c.prev
  if not joins then pure b else do
    p ← load c.prev
    set_size c.prev (p.size + header_size + c.size)
    set_next c.prev c.next
    if c.next == null then skip else set_prev c.next c.prev
    pure c.prev

-- The second half: a free neighbour behind is taken in.
pub merge_next : Ptr → Cmd (Unit {0})
unfolding modify is_free
merge_next b = do
  c ← load b
  joins ← is_free c.next
  if not joins then skip else do
    n ← load c.next
    set_size b (c.size + header_size + n.size)
    set_next b n.next
    if n.next == null then skip else set_prev n.next b
    if n.next == null then set_end b else skip

pub mm_free : Ptr → Cmd (Unit {0})
mm_free p =
    if p == null
    then skip
    else do let b = p - header_size; set_free b 1; b' ← merge_prev b; merge_next b'

-- size + sizeof(Block), if the neighbour at `p` is free.
pub gain : Ptr → Cmd ℕ
unfolding is_free
gain p = do
  joins ← is_free p
  if not joins then pure 0 else do c ← load p; pure (c.size + header_size)

pub mm_realloc : Os → ℕ → Ptr → ℕ → Cmd Ptr
mm_realloc os fuel p size =
    if size == 0
    then (do mm_free p; pure null)
    else if p == null
    then mm_malloc os fuel size
    else do
      b ← load (p - header_size)
      let copy_size = if ltb size b.size then size else b.size
      buffer ← read_bytes p copy_size
      front ← gain b.prev
      back ← gain b.next
      if leb size (b.size + front + back)
          then (do mm_free p; q ← mm_malloc os fuel size; write_bytes q buffer copy_size; pure q)
          else do
            q ← mm_malloc os fuel size
            if q == null
                then pure null
                else do mm_free p; b' ← load (p - header_size); write_bytes q buffer b'.size; pure q
