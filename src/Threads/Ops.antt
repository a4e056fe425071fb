-- ===== src/Threads/Ops.antt =====
-- proj-pregame/src/threads/thread.c: the operations that give up the CPU, down to schedule().
use os_tools_and_features.Prelude.{
  ◌≡◌, sym, List, [], ◌∷◌, ◌++◌, Option, some, true, false, ◌==◌, if◌then◌else◌, Bool-cases, inl,
  inr,
}
use os_tools_and_features.Threads.{
  Ptr, null, thread_magic, ready, blocked, dying, Level, off, Thread, Kernel, ok, is_running,
  update, and_then, schedule, resume, thread_current, assert_is_thread, thread_yield, thread_block,
  thread_exit, thread_enqueue, intr_disable, set_status, remove,
}
use os_tools_and_features.Threads.Invariant.{Inv}
use os_tools_and_features.Threads.Switch.{state}

-- A state is one of the form that the lemmas on schedule() are about.
pub state-eq :
    (k : Kernel)
    → Inv k
    → k.intr_context ≡ false
    → state k k.thread k.fifo_ready_list k.running_thread k.level ≡ k
state-eq k v e = λ i. record k { policy = sym v.policy i; intr_context = sym e i }

module _ (k : Kernel) (th : Ptr → Option Thread) (q : List Ptr) (c : Ptr) (l : Level) (r : Thread)
    (cur : th c ≡ some r) (live : is_running r.status ≡ true) (nz : (c == null) ≡ false)
    (sound : (r.magic == thread_magic) ≡ true) where
  thread_current-ok : (l : Level) → thread_current (state k th q c l) ≡ ok c (state k th q c l)
  unfolding thread_current assert_is_thread
  thread_current-ok l = rw (cur, nz, sound) (rw (cur, live))

  thread_enqueue-ok : thread_enqueue c (state k th q c off) ≡ ok tt (state k th (q ++ c ∷ []) c off)
  unfolding thread_enqueue assert_is_thread
  thread_enqueue-ok = rw (cur, nz, sound)

  pub yield-schedule :
      thread_yield (state k th q c l)
      ≡ and_then
          (schedule (
            state k
              (update th c (some (record r { status = ready; on_return = l })))
              (if c == k.idle_thread then q else q ++ c ∷ [])
              c
              off))
          (λ _. resume)
  unfolding thread_yield intr_disable
  yield-schedule = rw (thread_current-ok l) (elim (Bool-cases (c == k.idle_thread)) [
    | inl idle ↦ rw (idle, cur)
    | inr busy ↦ rw (busy, thread_enqueue-ok, cur)
  ])

  pub block-schedule :
      l ≡ off
      → thread_block (state k th q c l)
        ≡ and_then
            (schedule (
              state k
                (update th c (some (record r { status = blocked; on_return = off })))
                q
                c
                off))
            (λ _. resume)
  unfolding thread_block
  block-schedule e = rw e (rw (thread_current-ok off, cur))

  pub exit-schedule :
      thread_exit (state k th q c l)
      ≡ and_then
          (schedule (
            state
              (record k { all_list = remove c k.all_list })
              (update th c (some (record r { status = dying })))
              q
              c
              off))
          (λ _. resume)
  unfolding thread_exit intr_disable set_status
  exit-schedule = rw (thread_current-ok off, cur)
