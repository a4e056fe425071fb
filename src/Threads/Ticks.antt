-- ===== src/Threads/Ticks.antt =====
-- proj-pregame/src/threads/thread.c: the timer tick and the time slice.
use os_tools_and_features.Prelude.{
  ℕ, zero, suc, ◌+◌, ◌%◌, ◌^◌, ◌<◌, not, ap, Option, none, some, if◌then◌else◌, ◌≡◌, ◌∙◌, Bool,
  true, false, ◌==◌, ◌&&◌, ◌||◌, arith, refl, leb, ltb, inl, inr, Bool-cases,
}
use os_tools_and_features.Threads.{
  charge, preempt, intr_yield_on_return, time_slice, Thread, Kernel, ok, Cmd, ◌>>◌, skip,
  thread_tick,
}
use os_tools_and_features.Threads.Calls.{Current, current, thread_current-eq}
use os_tools_and_features.Threads.Invariant.{Returns, mono, Returns-and_then, Inv}

-- `n` timer interrupts with no switch between them.
abbrev pub ticks : ℕ → Cmd (Unit {0})
ticks zero = skip
ticks (suc n) = thread_tick >> ticks n

-- What the running thread is.
abbrev pub is_idle : Kernel → Bool
is_idle k = k.running_thread == k.idle_thread

abbrev pub has_pcb : Option Thread → Bool
has_pcb none = false
has_pcb (some r) = r.user

abbrev pub is_user : Kernel → Bool
is_user k = not (is_idle k) && has_pcb (k.thread k.running_thread)

abbrev pub is_kernel : Kernel → Bool
is_kernel k = not (is_idle k) && not (has_pcb (k.thread k.running_thread))

-- After `n` ticks: the counter of the running thread's kind has grown by them and the other two have not,
-- and a yield is asked for when the slice is used up.
pub record Ticked (n : ℕ) (k : Kernel) (u : Unit {0}) (g : Kernel) : Type 0 where
  pub slice : g.thread_ticks ≡ k.thread_ticks + n
  pub asked :
      g.yield_on_return ≡ (k.yield_on_return || (ltb 0 n && leb time_slice (k.thread_ticks + n)))
  pub idle : g.idle_ticks ≡ k.idle_ticks + (if is_idle k then n else 0)
  pub user : g.user_ticks ≡ k.user_ticks + (if is_user k then n else 0)
  pub kernel : g.kernel_ticks ≡ k.kernel_ticks + (if is_kernel k then n else 0)
  pub thread : g.thread ≡ k.thread
  pub queue : g.fifo_ready_list ≡ k.fifo_ready_list
  pub running : g.running_thread ≡ k.running_thread
  pub idle_thread : g.idle_thread ≡ k.idle_thread
  pub context : g.intr_context ≡ k.intr_context
  pub inv : Inv g

-- The state behind preempt().
abbrev preempted : Kernel → Kernel
preempted k = record k {
  thread_ticks = suc k.thread_ticks % 2 ^ 32;
  yield_on_return = leb time_slice (suc k.thread_ticks % 2 ^ 32) || k.yield_on_return;
}

preempt-eq : (k : Kernel) → k.intr_context ≡ true → preempt k ≡ ok tt (preempted k)
unfolding preempt intr_yield_on_return
preempt-eq k c = rw c (elim (Bool-cases (leb time_slice (suc k.thread_ticks % 2 ^ 32))) [
  | inl over ↦ rw over refl
  | inr rest ↦ rw rest refl
])

charge-context : (k : Kernel) (a b : Bool) → (charge a b k).intr_context ≡ k.intr_context
charge-context k true b = refl
charge-context k false true = refl
charge-context k false false = refl

tick-eq :
    (k : Kernel) (r : Thread)
    → Current k r
    → k.intr_context ≡ true
    → thread_tick k ≡ ok tt (preempted (charge (k.running_thread == k.idle_thread) r.user k))
unfolding thread_tick
tick-eq k r o c =
    rw (thread_current-eq k r o, o.cur)
      (preempt-eq (charge (k.running_thread == k.idle_thread) r.user k)
        (charge-context k (k.running_thread == k.idle_thread) r.user ∙ c))

-- The invariant does not read what a tick changes.
Inv-tick :
    (k : Kernel) (a b c d : ℕ) (y : Bool)
    → Inv k
    → Inv (record k {
      idle_ticks = a;
      user_ticks = b;
      kernel_ticks = c;
      thread_ticks = d;
      yield_on_return = y;
    })
Inv-tick k a b c d y v = record {
  policy = v.policy;
  current = v.current;
  only = v.only;
  queued = v.queued;
  listed = v.listed;
  distinct = v.distinct;
  idle = v.idle;
  valid = v.valid;
}

charge-Ticked :
    (k : Kernel) (a b : Bool)
    → Inv k
    → suc k.thread_ticks < 2 ^ 32
    → is_idle k ≡ a
    → has_pcb (k.thread k.running_thread) ≡ b
    → Ticked 1 k tt (preempted (charge a b k))
charge-Ticked k true b v l e f = record {
  slice = omega arith;
  asked = ground arith;
  idle = rw e (omega arith);
  user = rw e (omega arith);
  kernel = rw e (omega arith);
  thread = refl;
  queue = refl;
  running = refl;
  idle_thread = refl;
  context = refl;
  inv = Inv-tick k _ _ _ _ _ v;
}
charge-Ticked k false true v l e f = record {
  slice = omega arith;
  asked = ground arith;
  idle = rw e (omega arith);
  user = rw (e, f) (omega arith);
  kernel = rw (e, f) (omega arith);
  thread = refl;
  queue = refl;
  running = refl;
  idle_thread = refl;
  context = refl;
  inv = Inv-tick k _ _ _ _ _ v;
}
charge-Ticked k false false v l e f = record {
  slice = omega arith;
  asked = ground arith;
  idle = rw e (omega arith);
  user = rw (e, f) (omega arith);
  kernel = rw (e, f) (omega arith);
  thread = refl;
  queue = refl;
  running = refl;
  idle_thread = refl;
  context = refl;
  inv = Inv-tick k _ _ _ _ _ v;
}

thread_tick-Ticked :
    (k : Kernel)
    → Inv k
    → k.intr_context ≡ true
    → suc k.thread_ticks < 2 ^ 32
    → Returns (Ticked 1 k) (thread_tick k)
thread_tick-Ticked k v c l =
    let (r, o) = current k v in
    rw (tick-eq k r o c) (charge-Ticked k (is_idle k) r.user v l refl (ap has_pcb o.cur))

-- In an interrupt handler, `n` timer ticks with no switch between them, by which the 32 bits of
-- thread_ticks do not overflow, add `n` to the counter of what the running thread is: idle_ticks for the
-- idle thread, else user_ticks when it has a process control block, and kernel_ticks when it has none; the
-- other two counters stay. A yield is asked for once the slice of four ticks is used up, and else only if
-- it was before. The threads and the ready list stay as they are.
pub ticks-Ticked :
    (n : ℕ) (k : Kernel)
    → Inv k
    → k.intr_context ≡ true
    → k.thread_ticks + n < 2 ^ 32
    → Returns (Ticked n k) (ticks n k)
ticks-Ticked zero k v c l = record {
  slice = omega arith;
  asked = ground arith;
  idle = ground arith;
  user = ground arith;
  kernel = ground arith;
  thread = refl;
  queue = refl;
  running = refl;
  idle_thread = refl;
  context = refl;
  inv = v;
}
ticks-Ticked (suc n) k v c l =
    Returns-and_then (Ticked 1 k) _ _ _ (thread_tick-Ticked k v c (omega arith)) λ u g w.
      mono (Ticked n g) _ _ (ticks-Ticked n g w.inv (w.context ∙ c) (omega (arith, w.slice, l)))
        λ u h x.
          let i : is_idle g ≡ is_idle k = λ j. w.running j == w.idle_thread j in
          let p : has_pcb (g.thread g.running_thread) ≡ has_pcb (k.thread k.running_thread) =
            λ j. has_pcb (w.thread j (w.running j)) in
          record {
            slice = omega (arith, w.slice, x.slice);
            asked = ground (arith, w.asked, w.slice, x.asked);
            idle = ground (arith, w.idle, x.idle, i);
            user = ground (arith, w.user, x.user, i, p);
            kernel = ground (arith, w.kernel, x.kernel, i, p);
            thread = x.thread ∙ w.thread;
            queue = x.queue ∙ w.queue;
            running = x.running ∙ w.running;
            idle_thread = x.idle_thread ∙ w.idle_thread;
            context = x.context ∙ w.context;
            inv = x.inv;
          }
