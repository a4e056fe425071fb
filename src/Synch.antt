-- ===== src/Synch.antt =====
-- proj-pregame/src/threads/synch.c: semaphores and locks, as threads use them that may be interrupted
-- between any two atomic parts of a call. An atomic part runs with interrupts off, or is one access.
pub mod Invariant
pub mod Steps
pub mod Exclusion
pub mod Tests
use os_tools_and_features.Prelude.{
  ℕ, suc, ◌+◌, ◌-◌, ◌≡◌, ◌≢◌, List, [], ◌∷◌, ◌++◌, Option, none, some, Bool, true, false, not, ◌==◌,
  ltb, if◌then◌else◌,
}
use os_tools_and_features.Threads.{Ptr, null, update}

pub record Semaphore : Type 0 where
  pub value : ℕ
  pub waiters : List Ptr

pub sema_init : ℕ → Semaphore
sema_init value = record { value = value; waiters = [] }

-- One round of the loop of sema_down(): the caller `t` goes to sleep, or is through.
pub data Down : Type 0 where
  sleeps through : Semaphore → Down

pub sema_down : Ptr → Semaphore → Down
sema_down t s =
    if s.value == 0
    then sleeps (record s { waiters = s.waiters ++ t ∷ [] })
    else through (record s { value = s.value - 1 })

pub sema_try_down : Semaphore → Option Semaphore
sema_try_down s = if ltb 0 s.value then some (record s { value = s.value - 1 }) else none

-- The thread to unblock, if there is one, and the semaphore.
abbrev pub first_waiter : List Ptr → Option Ptr
first_waiter [] = none
first_waiter (t ∷ ts) = some t

abbrev pub other_waiters : List Ptr → List Ptr
other_waiters [] = []
other_waiters (t ∷ ts) = ts

pub sema_up : Semaphore → Option Ptr × Semaphore
sema_up s =
    (first_waiter s.waiters, record { value = suc s.value; waiters = other_waiters s.waiters })

pub record Lock : Type 0 where
  pub holder : Ptr
  pub semaphore : Semaphore

pub lock_init : Lock
unfolding sema_init
lock_init = record { holder = null; semaphore = sema_init 1 }

-- How far a thread is in lock_acquire() and lock_release(): on its way to the loop of sema_down(),
-- asleep in the loop, woken there by sema_up(), behind it, with the lock, and in lock_release() before sema_up().
pub data Phase : Type 0 where
  outside entering asleep woken entered holding leaving : Phase

pub record World : Type 0 where
  pub lock : Lock
  pub phase : Ptr → Phase

pub data Turn : Type 0 where
  goes : World → Turn
  blocked panics : Turn

pub lock_held_by : Ptr → Lock → Bool
lock_held_by t l = l.holder == t

abbrev pub move : Ptr → Phase → World → World
move t p w = record w { phase = update w.phase t p }

abbrev pub with_semaphore : World → Semaphore → World
with_semaphore w s = record w { lock = record w.lock { semaphore = s } }

abbrev pub with_holder : World → Ptr → World
with_holder w t = record w { lock = record w.lock { holder = t } }

-- thread_unblock() of a thread that sleeps in sema_down().
abbrev pub wake : Option Ptr → World → World
wake none w = w
wake (some t) w = move t woken w

abbrev pub after_down : Ptr → World → Down → Turn
after_down t w (sleeps s) = goes (move t asleep (with_semaphore w s))
after_down t w (through s) = goes (move t entered (with_semaphore w s))

abbrev pub after_up : Ptr → World → Option Ptr × Semaphore → Turn
after_up t w (waiter, s) = goes (wake waiter (move t outside (with_semaphore w s)))

-- The next atomic part of the thread `t`, which calls lock_acquire() and then lock_release().
abbrev pub part : Ptr → Phase → World → Turn
part t outside w = if lock_held_by t w.lock then panics else goes (move t entering w)
part t entering w = after_down t w (sema_down t w.lock.semaphore)
part t asleep w = blocked
part t woken w = after_down t w (sema_down t w.lock.semaphore)
part t entered w = goes (move t holding (with_holder w t))
part t holding w =
    if lock_held_by t w.lock then goes (move t leaving (with_holder w null)) else panics
part t leaving w = after_up t w (sema_up w.lock.semaphore)

pub turn : Ptr → World → Turn
unfolding lock_held_by sema_down sema_up
turn t w = part t (w.phase t) w

abbrev pub after_try : Ptr → World → Option Semaphore → Turn
after_try t w none = goes w
after_try t w (some s) = goes (move t entered (with_semaphore w s))

-- lock_try_acquire() by a thread outside, up to the assignment of the holder.
abbrev pub try_part : Ptr → Phase → World → Turn
try_part t outside w =
    if lock_held_by t w.lock then panics else after_try t w (sema_try_down w.lock.semaphore)
try_part t _ w = blocked

pub try_turn : Ptr → World → Turn
unfolding lock_held_by sema_try_down
try_turn t w = try_part t (w.phase t) w

-- The lock has just been initialised.
pub start : World
unfolding lock_init
start = record { lock = lock_init; phase = λ t. outside }

-- The states that the threads can get to, in any order of their turns.
pub data Reachable : World → Type 0 where
  initial : Reachable start
  turns : {w w' : World} → Reachable w → (t : Ptr) → t ≢ null → turn t w ≡ goes w' → Reachable w'
  tries :
      {w w' : World} → Reachable w → (t : Ptr) → t ≢ null → try_turn t w ≡ goes w' → Reachable w'
