-- ===== src/Threads.antt =====
-- proj-pregame/src/threads/thread.c: the threads of the kernel and its scheduler. A thread is named
-- by the address of its page. Each function runs on the whole kernel state; a failed ASSERT or a
-- PANIC is `panics`. A thread that is switched to goes on behind its own call of schedule(): what it
-- then does to the interrupt level (a local variable of thread_yield(), or intr_enable() in
-- kernel_thread()) is the member `on_return` of its record.
pub mod Invariant
pub mod Switch
pub mod Schedule
pub mod Ops
pub mod Calls
pub mod Wake
pub mod Rounds
pub mod Ticks
pub mod Tests
use os_tools_and_features.Prelude.{
  ℕ, suc, ◌+◌, ◌%◌, ◌^◌, ◌<◌, List, [], ◌∷◌, ◌++◌, Option, none, some, Bool, true, false, not, ◌&&◌,
  ◌==◌, ltb, leb, if◌then◌else◌,
}

abbrev pub Ptr : Type 0
Ptr = ℕ

abbrev pub null : Ptr
null = 0

abbrev pub thread_magic : ℕ
thread_magic = 0xcd6abf4b

abbrev pub pri_max : ℕ
pri_max = 63

abbrev pub time_slice : ℕ
time_slice = 4

pub data Status : Type 0 where
  running ready blocked dying : Status

pub data Level : Type 0 where
  off on : Level

pub data Policy : Type 0 where
  fifo prio fair mlfqs : Policy

-- `user` says that there is a process control block.
pub record Thread : Type 0 where
  pub tid : ℕ
  pub status : Status
  pub priority : ℕ
  pub user : Bool
  pub magic : ℕ
  pub on_return : Level

-- The lists hold the threads whose elements they link.
pub record Kernel : Type 0 where
  pub thread : Ptr → Option Thread
  pub fifo_ready_list : List Ptr
  pub all_list : List Ptr
  pub idle_thread : Ptr
  pub initial_thread : Ptr
  pub running_thread : Ptr
  pub level : Level
  pub intr_context : Bool
  pub yield_on_return : Bool
  pub idle_ticks : ℕ
  pub user_ticks : ℕ
  pub kernel_ticks : ℕ
  pub thread_ticks : ℕ
  pub next_tid : ℕ
  pub policy : Policy

pub data Run (A : Type 0) : Type 0 where
  ok : A → Kernel → Run A
  panics : Run A

abbrev pub Cmd : Type 0 → Type 0
Cmd A = Kernel → Run A

abbrev pub and_then : {A B : Type 0} → Run A → (A → Cmd B) → Run B
and_then (ok a k) f = f a k
and_then panics f = panics

infixl 5 ◌>>=◌ ◌>>◌
abbrev pub ◌>>=◌ : {A B : Type 0} → Cmd A → (A → Cmd B) → Cmd B
◌>>=◌ m f k = and_then (m k) f

abbrev pub ◌>>◌ : {B : Type 0} → Cmd (Unit {0}) → Cmd B → Cmd B
m >> n = m >>= λ _. n

abbrev pub pure : {A : Type 0} → A → Cmd A
pure a k = ok a k

abbrev pub get : Cmd Kernel
get k = ok k k

abbrev pub put : Kernel → Cmd (Unit {0})
put k' k = ok tt k'

abbrev pub skip : Cmd (Unit {0})
skip k = ok tt k

abbrev pub panic : {A : Type 0} → Cmd A
panic k = panics

abbrev pub assert : Bool → Cmd (Unit {0})
assert true k = ok tt k
assert false k = panics

abbrev pub update {ℓ} : {A : Type ℓ} → (Ptr → A) → Ptr → A → Ptr → A
update f p a q = if p == q then a else f q

abbrev pub is_off : Level → Bool
is_off off = true
is_off on = false

abbrev pub is_running : Status → Bool
is_running running = true
is_running _ = false

abbrev pub is_blocked : Status → Bool
is_blocked blocked = true
is_blocked _ = false

abbrev pub is_dying : Status → Bool
is_dying dying = true
is_dying _ = false

abbrev pub read_from : Option Thread → Cmd Thread
read_from none k = panics
read_from (some r) k = ok r k

abbrev pub read : Ptr → Cmd Thread
read t k = read_from (k.thread t) k

abbrev pub write : Ptr → Thread → Cmd (Unit {0})
write t r k = ok tt (record k { thread = update k.thread t (some r) })

-- ASSERT(is_thread(t))
pub assert_is_thread : Ptr → Cmd (Unit {0})
assert_is_thread t = do r ← read t; assert (not (t == null) && r.magic == thread_magic)

pub set_status : Ptr → Status → Cmd (Unit {0})
set_status t s = do r ← read t; write t (record r { status = s })

-- intr_disable() and intr_set_level(); the latter may not turn interrupts on in a handler.
pub intr_disable : Cmd Level
intr_disable k = ok k.level (record k { level = off })

pub intr_set_level : Level → Cmd (Unit {0})
intr_set_level off k = ok tt (record k { level = off })
intr_set_level on k = if k.intr_context then panics else ok tt (record k { level = on })

pub thread_current : Cmd Ptr
unfolding assert_is_thread
thread_current = do
  k ← get
  assert_is_thread k.running_thread
  r ← read k.running_thread
  assert (is_running r.status)
  pure k.running_thread

abbrev pub push_ready : Policy → Ptr → Cmd (Unit {0})
push_ready fifo t k = ok tt (record k { fifo_ready_list = k.fifo_ready_list ++ t ∷ [] })
push_ready _ t k = panics

pub thread_enqueue : Ptr → Cmd (Unit {0})
unfolding assert_is_thread
thread_enqueue t = do k ← get; assert (is_off k.level); assert_is_thread t; push_ready k.policy t

pub thread_unblock : Ptr → Cmd (Unit {0})
unfolding assert_is_thread thread_enqueue set_status intr_disable intr_set_level
thread_unblock t = do
  assert_is_thread t
  old_level ← intr_disable
  r ← read t
  assert (is_blocked r.status)
  thread_enqueue t
  set_status t ready
  intr_set_level old_level

-- The schedulers of the jump table; only the first is there.
abbrev pub thread_schedule_fifo : List Ptr → Cmd Ptr
thread_schedule_fifo [] k = ok k.idle_thread k
thread_schedule_fifo (t ∷ ts) k = ok t (record k { fifo_ready_list = ts })

abbrev pub dispatch : Policy → Cmd Ptr
dispatch fifo k = thread_schedule_fifo k.fifo_ready_list k
dispatch _ k = panics

pub next_thread_to_run : Cmd Ptr
next_thread_to_run = do k ← get; dispatch k.policy

-- `prev` is dead, and not the initial thread, whose page is not from palloc.
abbrev pub destroys : Kernel → Ptr → Thread → Bool
destroys k prev r = is_dying r.status && not (prev == k.initial_thread)

abbrev pub destroy : Ptr → Cmd (Unit {0})
destroy prev = do
  k ← get
  r ← read prev
  if not (destroys k prev r) then skip else do
    assert (not (prev == k.running_thread))
    put (record k { thread = update k.thread prev none })

pub thread_switch_tail : Ptr → Cmd (Unit {0})
thread_switch_tail prev = do
  k ← get
  assert (is_off k.level)
  set_status k.running_thread running
  k' ← get
  put (record k' { thread_ticks = 0 })
  if prev == null then skip else destroy prev

pub schedule : Cmd (Unit {0})
schedule = do
  k ← get
  let cur = k.running_thread
  next ← next_thread_to_run
  assert (is_off k.level)
  r ← read cur
  assert (not (is_running r.status))
  assert_is_thread next
  if cur == next
      then thread_switch_tail null
      else do k' ← get; put (record k' { running_thread = next }); thread_switch_tail cur

-- The thread that runs now goes on behind its call of schedule().
pub resume : Cmd (Unit {0})
resume = do k ← get; r ← read k.running_thread; intr_set_level r.on_return

pub thread_block : Cmd (Unit {0})
thread_block = do
  k ← get
  assert (not k.intr_context)
  assert (is_off k.level)
  cur ← thread_current
  r ← read cur
  write cur (record r { status = blocked; on_return = off })
  schedule
  resume

pub thread_yield : Cmd (Unit {0})
thread_yield = do
  cur ← thread_current
  k ← get
  assert (not k.intr_context)
  old_level ← intr_disable
  if cur == k.idle_thread then skip else thread_enqueue cur
  r ← read cur
  write cur (record r { status = ready; on_return = old_level })
  schedule
  resume

-- list_remove(&t->allelem)
abbrev pub remove : Ptr → List Ptr → List Ptr
remove t [] = []
remove t (x ∷ xs) = if x == t then xs else x ∷ remove t xs

pub thread_exit : Cmd (Unit {0})
thread_exit = do
  k ← get
  assert (not k.intr_context)
  old_level ← intr_disable
  cur ← thread_current
  k' ← get
  put (record k' { all_list = remove cur k'.all_list })
  set_status cur dying
  schedule
  resume

pub init_thread : Ptr → ℕ → Cmd (Unit {0})
init_thread t priority k =
    if not (t == null) && leb priority pri_max
    then ok tt (record k {
      thread = update k.thread t (
          some (record {
            tid = 0;
            status = blocked;
            priority = priority;
            user = false;
            magic = thread_magic;
            on_return = on;
          }));
      all_list = k.all_list ++ t ∷ [];
    })
    else panics

-- The lock of the counter is free whenever a call begins, since none can be interrupted here. What is
-- left of lock_acquire() and lock_release() is that the former may not be called in a handler, and the
-- assertions of thread_current().
pub allocate_tid : Cmd ℕ
unfolding thread_current
allocate_tid = do
  k ← get
  assert (not k.intr_context)
  t ← thread_current
  put (record k { next_tid = suc k.next_tid })
  pure k.next_tid

-- `page` is the answer of palloc_get_page(); `none` stands for TID_ERROR.
pub thread_create : Ptr → ℕ → Cmd (Option ℕ)
thread_create page priority = if page == null then pure none else do
  init_thread page priority
  tid ← allocate_tid
  r ← read page
  write page (record r { tid = tid })
  thread_unblock page
  pure (some tid)

-- The statistics, by what the interrupted thread is.
abbrev pub charge : Bool → Bool → Kernel → Kernel
charge idle user k =
    if idle
    then record k { idle_ticks = suc k.idle_ticks }
    else if user
    then record k { user_ticks = suc k.user_ticks }
    else record k { kernel_ticks = suc k.kernel_ticks }

pub intr_yield_on_return : Cmd (Unit {0})
intr_yield_on_return k =
    if k.intr_context then ok tt (record k { yield_on_return = true }) else panics

-- A yield is asked for when the time slice is over; thread_ticks is an unsigned.
pub preempt : Cmd (Unit {0})
preempt k =
    let n = suc k.thread_ticks % 2 ^ 32 in
    if leb time_slice n
    then intr_yield_on_return (record k { thread_ticks = n })
    else ok tt (record k { thread_ticks = n })

pub thread_tick : Cmd (Unit {0})
thread_tick = do
  t ← thread_current
  r ← read t
  k ← get
  put (charge (t == k.idle_thread) r.user k)
  preempt
