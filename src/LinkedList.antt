-- ===== src/LinkedList.antt =====
-- proj-pregame/src/lib/kernel/list.c: doubly linked lists whose elements stand inside other structures.
-- An element is its address; the memory is its two links. A failed ASSERT and a dereferenced null
-- pointer are `panics`; a loop whose fuel is used up is `running`.
pub mod Chain
pub mod Splice
pub mod Basic
pub mod Deque
pub mod Sorting
pub mod Merge
pub mod Walk
pub mod Sort
pub mod Passes
pub mod Select
pub mod Insert
pub mod Reverse
pub mod Tests
use os_tools_and_features.Prelude.{
  ℕ, zero, suc, ◌+◌, List, [], ◌∷◌, Bool, true, false, not, ◌&&◌, ◌||◌, ◌==◌, if◌then◌else◌,
}
use os_tools_and_features.Threads.{Ptr, null, update}

pub record Memory : Type 0 where
  pub prev : Ptr → Ptr
  pub next : Ptr → Ptr

-- struct list: the addresses of its two headers.
pub record Header : Type 0 where
  pub head : Ptr
  pub tail : Ptr

pub data Run (A : Type 0) : Type 0 where
  ok : A → Memory → Run A
  panics running : Run A

abbrev pub Cmd : Type 0 → Type 0
Cmd A = Memory → Run A

abbrev pub and_then : {A B : Type 0} → Run A → (A → Cmd B) → Run B
and_then (ok a m) f = f a m
and_then panics f = panics
and_then running f = running

infixl 5 ◌>>=◌ ◌>>◌
abbrev pub ◌>>=◌ : {A B : Type 0} → Cmd A → (A → Cmd B) → Cmd B
◌>>=◌ c f m = and_then (c m) f

abbrev pub ◌>>◌ : {B : Type 0} → Cmd (Unit {0}) → Cmd B → Cmd B
c >> d = c >>= λ _. d

abbrev pub pure : {A : Type 0} → A → Cmd A
pure a m = ok a m

abbrev pub assert : Bool → Cmd (Unit {0})
assert b m = if b then ok tt m else panics

abbrev pub load_prev : Ptr → Cmd Ptr
load_prev e m = if e == null then panics else ok (m.prev e) m

abbrev pub load_next : Ptr → Cmd Ptr
load_next e m = if e == null then panics else ok (m.next e) m

abbrev pub set_prev : Ptr → Ptr → Cmd (Unit {0})
set_prev e p m = if e == null then panics else ok tt (record m { prev = update m.prev e p })

abbrev pub set_next : Ptr → Ptr → Cmd (Unit {0})
set_next e p m = if e == null then panics else ok tt (record m { next = update m.next e p })

abbrev pub is_head : Ptr → Memory → Bool
is_head e m = not (e == null) && m.prev e == null && not (m.next e == null)

abbrev pub is_interior : Ptr → Memory → Bool
is_interior e m = not (e == null) && not (m.prev e == null) && not (m.next e == null)

abbrev pub is_tail : Ptr → Memory → Bool
is_tail e m = not (e == null) && not (m.prev e == null) && m.next e == null

abbrev pub assert_head_or_interior : Ptr → Cmd (Unit {0})
assert_head_or_interior e m = assert (is_head e m || is_interior e m) m

abbrev pub assert_interior_or_tail : Ptr → Cmd (Unit {0})
assert_interior_or_tail e m = assert (is_interior e m || is_tail e m) m

abbrev pub assert_interior : Ptr → Cmd (Unit {0})
assert_interior e m = assert (is_interior e m) m

pub list_init : Header → Cmd (Unit {0})
list_init l = do
  set_prev l.head null
  set_next l.head l.tail
  set_prev l.tail l.head
  set_next l.tail null

pub list_begin : Header → Cmd Ptr
list_begin l = load_next l.head

pub list_rbegin : Header → Cmd Ptr
list_rbegin l = load_prev l.tail

pub list_next : Ptr → Cmd Ptr
list_next e = do assert_head_or_interior e; load_next e

pub list_prev : Ptr → Cmd Ptr
list_prev e = do assert_interior_or_tail e; load_prev e

pub list_empty : Header → Cmd Bool
unfolding list_begin
list_empty l = do b ← list_begin l; pure (b == l.tail)

-- The last part of list_splice(), and the body of list_insert().
pub link : Ptr → Ptr → Ptr → Cmd (Unit {0})
link before first last = do
  p ← load_prev before
  set_prev first p
  set_next last before
  q ← load_prev before
  set_next q first
  set_prev before last

-- The part of list_splice() before it, and the body of list_remove().
pub unlink : Ptr → Ptr → Cmd (Unit {0})
unlink first last = do
  p ← load_prev first
  n ← load_next last
  set_next p n
  n' ← load_next last
  p' ← load_prev first
  set_prev n' p'

pub list_insert : Ptr → Ptr → Cmd (Unit {0})
list_insert before elem = do
  assert_interior_or_tail before
  assert (not (elem == null))
  link before elem elem

pub list_splice : Ptr → Ptr → Ptr → Cmd (Unit {0})
list_splice before first last = do
  assert_interior_or_tail before
  if first == last then pure tt else do
    last' ← list_prev last
    assert_interior first
    assert_interior last'
    unlink first last'
    link before first last'

pub list_push_front : Header → Ptr → Cmd (Unit {0})
list_push_front l elem = do b ← list_begin l; list_insert b elem

pub list_push_back : Header → Ptr → Cmd (Unit {0})
list_push_back l elem = list_insert l.tail elem

pub list_remove : Ptr → Cmd Ptr
list_remove elem = do assert_interior elem; unlink elem elem; load_next elem

pub list_front : Header → Cmd Ptr
list_front l = do e ← list_empty l; assert (not e); load_next l.head

pub list_back : Header → Cmd Ptr
list_back l = do e ← list_empty l; assert (not e); load_prev l.tail

pub list_pop_front : Header → Cmd Ptr
list_pop_front l = do front ← list_front l; n ← list_remove front; pure front

pub list_pop_back : Header → Cmd Ptr
list_pop_back l = do back ← list_back l; n ← list_remove back; pure back

-- The loop of list_size() from the element `e`.
pub size_loop : ℕ → Ptr → Ptr → ℕ → Cmd ℕ
size_loop zero end e cnt = λ _. running
size_loop (suc k) end e cnt =
    if e == end then pure cnt else (do n ← list_next e; size_loop k end n (suc cnt))

pub list_size : ℕ → Header → Cmd ℕ
list_size k l = do b ← list_begin l; size_loop k l.tail b 0

-- swap() of the two links of an element.
unfoldable pub swap_links : Ptr → Cmd (Unit {0})
swap_links e = do p ← load_prev e; n ← load_next e; set_prev e n; set_next e p

pub reverse_loop : ℕ → Ptr → Ptr → Cmd (Unit {0})
reverse_loop zero end e = λ _. running
reverse_loop (suc k) end e =
    if e == end then pure tt else (do swap_links e; p ← load_prev e; reverse_loop k end p)

-- The two swaps at the end of list_reverse().
unfoldable pub swap_ends : Header → Cmd (Unit {0})
swap_ends l = do
  h ← load_next l.head
  t ← load_prev l.tail
  set_next l.head t
  set_prev l.tail h
  a ← load_next l.head
  z ← load_prev l.tail
  p ← load_prev a
  n ← load_next z
  set_prev a n
  set_next z p

pub list_reverse : ℕ → Header → Cmd (Unit {0})
list_reverse k l = do
  empty ← list_empty l
  if empty then pure tt else do b ← list_begin l; reverse_loop k l.tail b; swap_ends l
