-- ===== src/Threads/Switch.antt =====
-- proj-pregame/src/threads/thread.c: what schedule() does, from a state with interrupts off in which
-- the current thread is no longer marked as running.
use os_tools_and_features.Prelude.{
  ◌≡◌, List, [], ◌∷◌, Option, none, some, true, false, ◌==◌, ◌&&◌, not, arith,
}
use os_tools_and_features.Threads.{
  Ptr, null, thread_magic, running, Level, off, fifo, Thread, Kernel, is_dying, is_running, update,
  and_then, schedule, resume, set_status, thread_switch_tail, next_thread_to_run, assert_is_thread,
  intr_set_level,
}
use os_tools_and_features.Threads.Invariant.{Returns}

abbrev pub next_of : List Ptr → Ptr → Ptr
next_of [] idle = idle
next_of (t ∷ ts) idle = t

abbrev pub rest_of : List Ptr → List Ptr
rest_of [] = []
rest_of (t ∷ ts) = ts

-- A state with the threads `thread` of which `c` is the current one, and the ready list `q`.
abbrev pub state : Kernel → (Ptr → Option Thread) → List Ptr → Ptr → Level → Kernel
state k thread q c l = record k {
  thread = thread;
  fifo_ready_list = q;
  running_thread = c;
  level = l;
  policy = fifo;
  intr_context = false;
}

abbrev pub runs : Thread → Thread
runs r = record r { status = running }

-- Where schedule() and what follows it end, with `n` running.
abbrev pub Switched :
    Kernel → (Ptr → Option Thread) → List Ptr → Ptr → Thread → Unit {0} → Kernel → Type 0
Switched k thread q n rn u g =
    g ≡ record (state k (update thread n (some (runs rn))) q n rn.on_return) { thread_ticks = 0 }

abbrev pub IsThread : Ptr → Thread → Type 0
IsThread n rn = ((n == null) ≡ false) × ((rn.magic == thread_magic) ≡ true)

module _ (k : Kernel) (c n : Ptr) (r rn : Thread) where
  pub switch_tail_other :
      (q : List Ptr) (th : Ptr → Option Thread)
      → th n ≡ some rn
      → th c ≡ some r
      → (c == n) ≡ false
      → (n == c) ≡ false
      → (c == null) ≡ false
      → (is_dying r.status && not (c == k.initial_thread)) ≡ false
      → Returns
          (Switched k th q n rn)
          (and_then (thread_switch_tail c (state k th q n off)) (λ _. resume))
  unfolding thread_switch_tail set_status resume intr_set_level
  switch_tail_other q th new old ne ne' nz lives = ground arith

  -- The current thread frees its page, as its last act.
  pub switch_tail_dying :
      (q : List Ptr) (th : Ptr → Option Thread)
      → th n ≡ some rn
      → th c ≡ some r
      → (c == n) ≡ false
      → (n == c) ≡ false
      → (c == null) ≡ false
      → (is_dying r.status && not (c == k.initial_thread)) ≡ true
      → Returns
          (λ u g. Switched k (update th c none) q n rn u g)
          (and_then (thread_switch_tail c (state k th q n off)) (λ _. resume))
  unfolding thread_switch_tail set_status resume intr_set_level
  switch_tail_dying q th new old ne ne' nz dies = ground arith

  pub switch_tail_same :
      (q : List Ptr) (th : Ptr → Option Thread)
      → th n ≡ some rn
      → Returns
          (Switched k th q n rn)
          (and_then (thread_switch_tail null (state k th q n off)) (λ _. resume))
  unfolding thread_switch_tail set_status resume intr_set_level
  switch_tail_same q th new = ground arith

module _ (k : Kernel) (c : Ptr) (r rn : Thread) (P : Unit {0} → Kernel → Type 0) where
  pub schedule_other :
      (q : List Ptr) (th : Ptr → Option Thread)
      → th (next_of q k.idle_thread) ≡ some rn
      → IsThread (next_of q k.idle_thread) rn
      → th c ≡ some r
      → is_running r.status ≡ false
      → (c == next_of q k.idle_thread) ≡ false
      → Returns P (
          and_then
            (thread_switch_tail c (state k th (rest_of q) (next_of q k.idle_thread) off))
            (λ _. resume))
      → Returns P (and_then (schedule (state k th q c off)) (λ _. resume))
  unfolding schedule next_thread_to_run assert_is_thread
  schedule_other [] th new valid old stopped ne p = rw (old, stopped, new, valid.0, valid.1, ne) p
  schedule_other (t ∷ ts) th new valid old stopped ne p =
      rw (old, stopped, new, valid.0, valid.1, ne) p

  pub schedule_same :
      (q : List Ptr) (th : Ptr → Option Thread)
      → th (next_of q k.idle_thread) ≡ some rn
      → IsThread (next_of q k.idle_thread) rn
      → th c ≡ some r
      → is_running r.status ≡ false
      → (c == next_of q k.idle_thread) ≡ true
      → Returns P (and_then (thread_switch_tail null (state k th (rest_of q) c off)) (λ _. resume))
      → Returns P (and_then (schedule (state k th q c off)) (λ _. resume))
  unfolding schedule next_thread_to_run assert_is_thread
  schedule_same [] th new valid old stopped eq p = rw (old, stopped, new, valid.0, valid.1, eq) p
  schedule_same (t ∷ ts) th new valid old stopped eq p =
      rw (old, stopped, new, valid.0, valid.1, eq) p
