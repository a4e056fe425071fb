-- ===== src/Threads/Calls.antt =====
-- proj-pregame/src/threads/thread.c: yielding, blocking and exiting keep the invariant, and which
-- thread they switch to.
use os_tools_and_features.Prelude.{
  ◌≡◌, ◌≢◌, ◌∙◌, subst, ap, List, [], ◌∷◌, ◌++◌, Option, none, some, Bool, true, false, ◌==◌, not,
  arith, refl, if◌then◌else◌, Bool-cases, inl, inr,
}
use os_tools_and_features.Threads.{
  Ptr, null, thread_magic, Status, running, ready, blocked, dying, off, Thread, Kernel, is_running,
  ok, thread_current, assert_is_thread, update, thread_yield, thread_block, thread_exit, remove,
}
use os_tools_and_features.Threads.Invariant.{
  Returns, mono, status_of, status_in, status_record, has-append, Distinct-snoc, Inv,
}
use os_tools_and_features.Threads.Switch.{next_of, rest_of}
use os_tools_and_features.Threads.Schedule.{dies, PreInv, next-thread, Switches, schedule-Switches}
use os_tools_and_features.Threads.Ops.{state-eq, yield-schedule, block-schedule, exit-schedule}

-- The ready list when the running thread has been put at its end, unless it is the idle thread.
abbrev pub requeued : Kernel → List Ptr
requeued k =
    if k.running_thread == k.idle_thread
    then k.fifo_ready_list
    else k.fifo_ready_list ++ k.running_thread ∷ []

-- The first thread of the list `q` runs, or the idle thread if there is none, and the rest of `q` is
-- ready. The thread that ran has the status `s`, unless it runs again; no other thread changes, and
-- the invariant holds.
pub record SwitchedTo (k : Kernel) (q : List Ptr) (s : Option Status) (u : Unit {0}) (g : Kernel)
    : Type 0 where
  pub running : g.running_thread ≡ next_of q k.idle_thread
  pub queue : g.fifo_ready_list ≡ rest_of q
  pub old : k.running_thread ≢ next_of q k.idle_thread → status_of g k.running_thread ≡ s
  pub kept :
      (t : Ptr) → t ≢ k.running_thread → t ≢ next_of q k.idle_thread → g.thread t ≡ k.thread t
  pub inv : Inv g
  pub idle : g.idle_thread ≡ k.idle_thread
  pub context : g.intr_context ≡ false

-- The state of the current thread, from the invariant.
pub record Current (k : Kernel) (r : Thread) : Type 0 where
  pub cur : k.thread k.running_thread ≡ some r
  pub live : is_running r.status ≡ true
  pub nz : (k.running_thread == null) ≡ false
  pub sound : (r.magic == thread_magic) ≡ true

pub current : (k : Kernel) → Inv k → (r : Thread) × Current k r
current k v =
    let (r, e, s) = status_record k k.running_thread running v.current in
    let valid = v.valid k.running_thread r e in
    (r, record { cur = e; live = ground arith; nz = ground arith; sound = ground arith })

pub thread_current-eq :
    (k : Kernel) (r : Thread) → Current k r → thread_current k ≡ ok k.running_thread k
unfolding thread_current assert_is_thread
thread_current-eq k r o = rw (o.cur, o.nz, o.sound) (rw (o.cur, o.live) refl)

module _ (k : Kernel) (v : Inv k) (context : k.intr_context ≡ false) (r : Thread)
    (o : Current k r) where
  open o use {cur, live, nz, sound}

  -- The current thread has another status, and another place in the list.
  abbrev with_status : Thread → Ptr → Option Thread
  with_status s = update k.thread k.running_thread (some s)

  yield-PreInv :
      (s : Thread)
      → s.status ≡ ready
      → s.magic ≡ thread_magic
      → PreInv k.idle_thread (with_status s) (requeued k)
  yield-PreInv s e m = elim (Bool-cases (k.running_thread == k.idle_thread)) [
    | inl idle ↦ rw idle (record {
      quiet = λ t. ground (arith, v.only t);
      queued = λ t h. ground (arith, v.queued t);
      listed = λ t h x. ground (arith, v.listed t);
      distinct = v.distinct;
      idle = (ground (arith, v.idle), v.idle.1);
      valid = λ t x h. ground (arith, v.valid t x, v.valid k.running_thread r cur);
    })
    | inr busy ↦ rw busy (record {
      quiet = λ t. ground (arith, v.only t);
      queued =
          λ t h. ground (arith, v.queued t, has-append t k.fifo_ready_list (k.running_thread ∷ []));
      listed = λ t h x.
          ground (arith, v.listed t, has-append t k.fifo_ready_list (k.running_thread ∷ []));
      distinct =
          Distinct-snoc k.fifo_ready_list k.running_thread v.distinct
            (ground (arith, v.queued k.running_thread));
      idle = (
        ground (arith, v.idle),
        ground (arith, v.idle, has-append k.idle_thread k.fifo_ready_list (k.running_thread ∷ [])),
      );
      valid = λ t x h. ground (arith, v.valid t x, v.valid k.running_thread r cur);
    })
  ]

  stop-PreInv :
      (s : Thread)
      → is_running s.status ≡ false
      → s.status ≢ ready
      → s.magic ≡ thread_magic
      → PreInv k.idle_thread (with_status s) k.fifo_ready_list
  stop-PreInv s e n m = record {
    quiet = λ t. ground (arith, v.only t);
    queued = λ t h. ground (arith, v.queued t);
    listed = λ t h x. ground (arith, v.listed t);
    distinct = v.distinct;
    idle = (ground (arith, v.idle), v.idle.1);
    valid = λ t x h. ground (arith, v.valid t x, v.valid k.running_thread r cur);
  }

  SwitchedTo-Switches :
      (k' g : Kernel) (q : List Ptr) (s : Thread)
      → k'.idle_thread ≡ k.idle_thread
      → Switches k' (with_status s) q k.running_thread s tt g
      → SwitchedTo k q (status_in (if dies k' k.running_thread s then none else some s)) tt g
  SwitchedTo-Switches k' g q s e w = record {
    running = rw (← e) w.running;
    queue = w.queue;
    old = λ ne. ap status_in (w.old (rw e ne));
    kept = λ t ne ne'. w.kept t ne (rw e ne') ∙ other t ne;
    inv = w.inv;
    idle = w.idle ∙ e;
    context = w.context;
  }
    where
      other : (t : Ptr) → t ≢ k.running_thread → with_status s t ≡ k.thread t
      other t ne = ground arith

  yield-SwitchedTo : Returns (SwitchedTo k (requeued k) (some ready)) (thread_yield k)
  yield-SwitchedTo =
      let s = record r { status = ready; on_return = k.level } in
      let pre = yield-PreInv s refl (ground arith) in
      let (rn, new) = next-thread (requeued k) pre in
      subst (λ x. Returns (SwitchedTo k (requeued k) (some ready)) (thread_yield x))
        (state-eq k v context)
        (rw
          (yield-schedule k k.thread k.fifo_ready_list k.running_thread k.level r cur live nz sound)
          (mono (Switches k (with_status s) (requeued k) k.running_thread s) _ _
            (schedule-Switches k k.running_thread s rn (with_status s) (requeued k) pre
              (ground arith) new refl (λ x. cc) (λ x. cc))
            λ u g w. SwitchedTo-Switches k g (requeued k) s refl w))

  block-SwitchedTo :
      k.level ≡ off → Returns (SwitchedTo k k.fifo_ready_list (some blocked)) (thread_block k)
  block-SwitchedTo lvl =
      let s = record r { status = blocked; on_return = off } in
      let pre = stop-PreInv s refl (λ x. cc) (ground arith) in
      let (rn, new) = next-thread k.fifo_ready_list pre in
      subst (λ x. Returns (SwitchedTo k k.fifo_ready_list (some blocked)) (thread_block x))
        (state-eq k v context)
        (rw
          (block-schedule k k.thread k.fifo_ready_list k.running_thread k.level r cur live nz sound
            lvl)
          (mono (Switches k (with_status s) k.fifo_ready_list k.running_thread s) _ _
            (schedule-Switches k k.running_thread s rn (with_status s) k.fifo_ready_list pre
              (ground arith) new refl (λ x. cc) (λ x. cc))
            λ u g w. SwitchedTo-Switches k g k.fifo_ready_list s refl w))

  next-ne :
      (q : List Ptr)
      → k.fifo_ready_list ≡ q
      → k.running_thread ≢ k.idle_thread
      → (k.running_thread == next_of q k.idle_thread) ≡ false
  next-ne [] e ne = ground arith
  next-ne (t ∷ ts) e ne = ground (arith, v.queued t)

  status_of_left :
      (b : Bool) (s : Thread)
      → status_in (if b then none else some s) ≡ (if b then none else some s.status)
  status_of_left true s = refl
  status_of_left false s = refl

  exit-SwitchedTo :
      k.running_thread ≢ k.idle_thread
      → Returns
          (SwitchedTo k k.fifo_ready_list
            (if not (k.running_thread == k.initial_thread) then none else some dying))
          (thread_exit k)
  exit-SwitchedTo busy =
      let k' = record k { all_list = remove k.running_thread k.all_list } in
      let s = record r { status = dying } in
      let pre = stop-PreInv s refl (λ x. cc) (ground arith) in
      let (rn, new) = next-thread k.fifo_ready_list pre in
      subst
        (λ x.
          Returns
            (SwitchedTo k k.fifo_ready_list
              (if not (k.running_thread == k.initial_thread) then none else some dying))
            (thread_exit x))
        (state-eq k v context)
        (rw
          (exit-schedule k k.thread k.fifo_ready_list k.running_thread k.level r cur live nz sound)
          (mono (Switches k' (with_status s) k.fifo_ready_list k.running_thread s) _ _
            (schedule-Switches k' k.running_thread s rn (with_status s) k.fifo_ready_list pre
              (ground arith) new refl (λ x. next-ne k.fifo_ready_list refl busy) (λ x. busy))
            λ u g w.
              subst (λ x. SwitchedTo k k.fifo_ready_list x tt g)
                (status_of_left (not (k.running_thread == k.initial_thread)) s)
                (SwitchedTo-Switches k' g k.fifo_ready_list s refl w)))

module _ (k : Kernel) (v : Inv k) (context : k.intr_context ≡ false) where
  -- From a state where the invariant holds, outside of an interrupt handler, thread_yield() does not
  -- panic: it puts the running thread at the end of the ready list, unless it is the idle thread, and
  -- switches to the first thread of that list, or to the idle thread when the list is empty.
  pub thread_yield_lem : Returns (SwitchedTo k (requeued k) (some ready)) (thread_yield k)
  thread_yield_lem = let (r, o) = current k v in yield-SwitchedTo k v context r o

  -- With interrupts off thread_block() switches to the first thread of the ready list, or to the idle
  -- thread, and leaves the running thread blocked and outside of the list.
  pub thread_block_lem :
      k.level ≡ off → Returns (SwitchedTo k k.fifo_ready_list (some blocked)) (thread_block k)
  thread_block_lem = let (r, o) = current k v in block-SwitchedTo k v context r o

  -- thread_exit() of any thread but the idle one switches to the next thread and gives the page of the
  -- dead one back, unless that is the initial thread, which stays behind as dying.
  pub thread_exit_lem :
      k.running_thread ≢ k.idle_thread
      → Returns
          (SwitchedTo k k.fifo_ready_list
            (if not (k.running_thread == k.initial_thread) then none else some dying))
          (thread_exit k)
  thread_exit_lem = let (r, o) = current k v in exit-SwitchedTo k v context r o
