-- ===== src/RwLock.antt =====
-- proj-pregame/src/threads/synch.c: the writer-centric readers-writers lock. All its code runs under
-- the guard lock, which cond_wait() gives up; a section is what one thread does between getting the
-- guard and giving it up. A caller releases what it has acquired.
pub mod Counts
pub mod Invariant
pub mod Sections
pub mod Guarantees
pub mod Tests
use os_tools_and_features.Prelude.{
  ℕ, suc, ◌+◌, ◌-◌, ◌≡◌, List, [], ◌∷◌, ◌++◌, Bool, true, false, ◌&&◌, ◌==◌, ltb, if◌then◌else◌,
}
use os_tools_and_features.Threads.{Ptr, update}

-- Where a thread is: in cond_wait() on `read` or `write`, signalled there, or with the lock.
pub data Phase : Type 0 where
  outside read_waiting read_woken reading write_waiting write_woken writing : Phase

-- The counters AR, WR, AW, WW, the waiters of the two conditions, and the threads.
pub record World : Type 0 where
  pub ar : ℕ
  pub wr : ℕ
  pub aw : ℕ
  pub ww : ℕ
  pub read : List Ptr
  pub write : List Ptr
  pub phase : Ptr → Phase

pub rw_lock_init : World
rw_lock_init = record {
  ar = 0;
  wr = 0;
  aw = 0;
  ww = 0;
  read = [];
  write = [];
  phase = λ t. outside;
}

abbrev pub move : Ptr → Phase → World → World
move t p w = record w { phase = update w.phase t p }

-- One test of the loop of a reader, and what follows up to the next cond_wait() or the end.
pub read_round : Ptr → World → World
read_round t w =
    if ltb 0 (w.aw + w.ww)
    then move t read_waiting (record w { wr = suc w.wr; read = w.read ++ t ∷ [] })
    else move t reading (record w { ar = suc w.ar })

pub write_round : Ptr → World → World
write_round t w =
    if ltb 0 (w.ar + w.aw)
    then move t write_waiting (record w { ww = suc w.ww; write = w.write ++ t ∷ [] })
    else move t writing (record w { aw = suc w.aw })

-- rw_lock_acquire() up to there.
pub rw_lock_acquire : Bool → Ptr → World → World
unfolding read_round write_round
rw_lock_acquire true t w = read_round t w
rw_lock_acquire false t w = write_round t w

-- rw_lock_acquire() behind its cond_wait().
pub rw_lock_again : Bool → Ptr → World → World
unfolding read_round write_round
rw_lock_again true t w = read_round t (record w { wr = w.wr - 1 })
rw_lock_again false t w = write_round t (record w { ww = w.ww - 1 })

-- cond_signal() on `write` and cond_broadcast() on `read`.
abbrev pub signal_write : List Ptr → World → World
signal_write [] w = w
signal_write (t ∷ ts) w = move t write_woken (record w { write = ts })

abbrev pub wake_all : List Ptr → (Ptr → Phase) → Ptr → Phase
wake_all [] phase = phase
wake_all (t ∷ ts) phase = wake_all ts (update phase t read_woken)

abbrev pub broadcast_read : World → World
broadcast_read w = record w { read = []; phase = wake_all w.read w.phase }

abbrev pub last_reader : World → World
last_reader w = if w.ar == 0 && ltb 0 w.ww then signal_write w.write w else w

abbrev pub hand_over : World → World
hand_over w =
    if ltb 0 w.ww then signal_write w.write w else if ltb 0 w.wr then broadcast_read w else w

pub rw_lock_release : Bool → Ptr → World → World
rw_lock_release true t w = last_reader (move t outside (record w { ar = w.ar - 1 }))
rw_lock_release false t w = hand_over (move t outside (record w { aw = w.aw - 1 }))

abbrev pub woken_of : Bool → Phase
woken_of true = read_woken
woken_of false = write_woken

abbrev pub active_of : Bool → Phase
active_of true = reading
active_of false = writing

-- The states that threads get to, in any order of their sections.
pub data Reachable : World → Type 0 where
  initial : Reachable rw_lock_init
  acquires :
      {w : World}
      → Reachable w
      → (b : Bool) (t : Ptr) → w.phase t ≡ outside
      → Reachable (rw_lock_acquire b t w)
  resumes :
      {w : World}
      → Reachable w
      → (b : Bool) (t : Ptr) → w.phase t ≡ woken_of b
      → Reachable (rw_lock_again b t w)
  releases :
      {w : World}
      → Reachable w
      → (b : Bool) (t : Ptr) → w.phase t ≡ active_of b
      → Reachable (rw_lock_release b t w)
