-- ===== src/Threads/Tests.antt =====
-- Runs of the scheduler, and its theorems at a concrete kernel.
use os_tools_and_features.Prelude.{
  ◌≡◌, refl, List, [], ◌∷◌, Option, none, some, true, false, ◌==◌, if◌then◌else◌, arith,
}
use os_tools_and_features.Threads.{
  Ptr, thread_magic, Status, running, ready, blocked, Level, off, on, fifo, Thread, Kernel, Run, ok,
  panics, Cmd, ◌>>=◌, ◌>>◌, thread_yield, thread_exit, thread_unblock, thread_create,
  thread_current, thread_enqueue, schedule, next_thread_to_run, thread_switch_tail, resume,
  set_status, intr_disable, intr_set_level, assert_is_thread, init_thread, allocate_tid,
}
use os_tools_and_features.Threads.Invariant.{Returns, Inv}
use os_tools_and_features.Threads.Calls.{SwitchedTo, thread_yield_lem, thread_exit_lem}
use os_tools_and_features.Threads.Wake.{Created, thread_create_lem}
use os_tools_and_features.Threads.Rounds.{Turn, yields, yields-round_robin}
use os_tools_and_features.Threads.Ticks.{Ticked, ticks, ticks-Ticked}

abbrev thread_with : Status → Thread
thread_with s = record {
  tid = 2;
  status = s;
  priority = 31;
  user = false;
  magic = thread_magic;
  on_return = on;
}

abbrev threads : Ptr → Option Thread
threads q =
    if q == 4096
    then some (thread_with running)
    else if q == 8192
    then some (thread_with ready)
    else if q == 12288
    then some (thread_with ready)
    else if q == 16384
    then some (thread_with blocked)
    else if q == 20480
    then some (thread_with blocked)
    else none

-- 4096 runs, 8192 and 12288 are ready, 16384 is blocked and 20480 is the idle thread.
abbrev kernel : Level → Kernel
kernel l = record {
  thread = threads;
  fifo_ready_list = 8192 ∷ 12288 ∷ [];
  all_list = 4096 ∷ 20480 ∷ 8192 ∷ 12288 ∷ 16384 ∷ [];
  idle_thread = 20480;
  initial_thread = 1000;
  running_thread = 4096;
  level = l;
  intr_context = false;
  yield_on_return = false;
  idle_ticks = 0;
  user_ticks = 0;
  kernel_ticks = 0;
  thread_ticks = 2;
  next_tid = 6;
  policy = fifo;
}

kernel-Inv : (l : Level) → Inv (kernel l)
kernel-Inv l = record {
  policy = refl;
  current = refl;
  only = λ q h. ground arith;
  queued = λ q h. ground arith;
  listed = λ q h x. ground arith;
  distinct = (refl, (refl, tt));
  idle = (λ e. cc, refl);
  valid = λ q r h. ground arith;
}

thread_yield_lem_example :
    Returns
      (SwitchedTo (kernel on) (8192 ∷ 12288 ∷ 4096 ∷ []) (some ready))
      (thread_yield (kernel on))
thread_yield_lem_example = thread_yield_lem (kernel on) (kernel-Inv on) refl

thread_exit_lem_example :
    Returns (SwitchedTo (kernel on) (8192 ∷ 12288 ∷ []) none) (thread_exit (kernel on))
thread_exit_lem_example = thread_exit_lem (kernel on) (kernel-Inv on) refl (omega arith)

thread_create_lem_example :
    Returns (Created (kernel on) 24576 31) (thread_create 24576 31 (kernel on))
thread_create_lem_example =
    thread_create_lem (kernel on) 24576 31 (kernel-Inv on) refl refl (omega arith) (omega arith)

yields-round_robin_example : Returns (Turn 12288 (4096 ∷ 8192 ∷ [])) (yields 2 (kernel on))
yields-round_robin_example =
    yields-round_robin 12288 (8192 ∷ []) [] (kernel on) (kernel-Inv on) refl refl refl

-- The same kernel in the handler of the timer.
abbrev handler : Kernel
handler = record (kernel off) { intr_context = true }

handler-Inv : Inv handler
handler-Inv = record {
  policy = refl;
  current = refl;
  only = (kernel-Inv off).only;
  queued = (kernel-Inv off).queued;
  listed = (kernel-Inv off).listed;
  distinct = (refl, (refl, tt));
  idle = (λ e. cc, refl);
  valid = (kernel-Inv off).valid;
}

ticks-Ticked_example : Returns (Ticked 3 handler) (ticks 3 handler)
ticks-Ticked_example = ticks-Ticked 3 handler handler-Inv refl (omega arith)

-- What a run ends with.
abbrev seen : {A : Type 0} → Run A → Option (Ptr × List Ptr × Level)
seen (ok a k) = some (k.running_thread, k.fifo_ready_list, k.level)
seen panics = none

-- A thread is made, another is woken, the creator blocks, and the next thread dies.
abbrev session : Cmd (Unit {0})
session = do tid ← thread_create 24576 31; thread_unblock 16384; thread_yield; thread_exit

seen-session : seen (session (kernel on)) ≡ some (12288, 24576 ∷ 16384 ∷ 4096 ∷ [], on)
unfolding thread_yield thread_exit thread_unblock thread_create thread_current thread_enqueue
    schedule next_thread_to_run thread_switch_tail resume set_status intr_disable intr_set_level
    assert_is_thread init_thread allocate_tid
seen-session = refl
