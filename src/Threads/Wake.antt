-- ===== src/Threads/Wake.antt =====
-- proj-pregame/src/threads/thread.c: threads that become ready, by thread_unblock() and
-- thread_create().
use os_tools_and_features.Prelude.{
  ℕ, suc, ◌≤◌, ◌≡◌, ◌≢◌, sym, subst, ap, [], ◌∷◌, ◌++◌, Option, none, some, Bool, true, false, not,
  ◌==◌, arith, refl, leb, le→leb, ==_refl,
}
use os_tools_and_features.Threads.{
  Ptr, null, thread_magic, pri_max, ready, blocked, Level, off, on, fifo, Thread, Kernel, ok,
  is_blocked, update, and_then, assert_is_thread, thread_enqueue, thread_unblock, thread_create,
  assert, init_thread, allocate_tid, thread_current, intr_disable, intr_set_level, set_status,
}
use os_tools_and_features.Threads.Calls.{current, thread_current-eq}
use os_tools_and_features.Threads.Invariant.{
  Returns, Returns-and_then, has-append, Distinct-snoc, Inv,
}

-- Interrupts are off in a handler.
abbrev pub Sane : Kernel → Type 0
Sane k = k.level ≡ on → k.intr_context ≡ false

-- The state once `t`, with the record `r`, is ready and last in the list.
abbrev pub woken : Kernel → Ptr → Thread → Kernel
woken k t r = record k {
  thread = update k.thread t (some (record r { status = ready }));
  fifo_ready_list = k.fifo_ready_list ++ t ∷ [];
}

woken-Inv :
    (k : Kernel) (t : Ptr) (r : Thread)
    → Inv k
    → k.thread t ≡ some r
    → r.status ≡ blocked
    → t ≢ k.idle_thread
    → Inv (woken k t r)
woken-Inv k t r v e b ne = record {
  policy = v.policy;
  current = ground (arith, v.current);
  only = λ q h. ground (arith, v.only q);
  queued = λ q h. ground (arith, v.queued q, has-append q k.fifo_ready_list (t ∷ []));
  listed = λ q h x. ground (arith, v.listed q, has-append q k.fifo_ready_list (t ∷ []));
  distinct = Distinct-snoc k.fifo_ready_list t v.distinct (ground (arith, v.queued t));
  idle = (
    ground (arith, v.idle),
    ground (arith, v.idle, has-append k.idle_thread k.fifo_ready_list (t ∷ [])),
  );
  valid = λ q x h. ground (arith, v.valid q x, v.valid t r e);
}

-- The parts of the state that thread_unblock() reads, as variables.
abbrev at : Kernel → Level → Bool → Kernel
at k l c = record k { level = l; intr_context = c; policy = fifo }

module _ (k : Kernel) (t : Ptr) (r : Thread) (e : k.thread t ≡ some r) (nz : (t == null) ≡ false)
    (sound : (r.magic == thread_magic) ≡ true) (b : is_blocked r.status ≡ true) where
  unblock-at :
      (l : Level) (c : Bool)
      → (l ≡ on → c ≡ false)
      → thread_unblock t (at k l c) ≡ ok tt (at (woken k t r) l c)
  unfolding thread_unblock assert_is_thread thread_enqueue set_status intr_disable intr_set_level
  unblock-at off c h = rw (e, nz, sound) (rw (e, b) (rw (e, sound) (rw e refl)))
  unblock-at on c h = rw (e, nz, sound) (rw (e, b) (rw (e, sound) (rw (e, h refl) refl)))

at-eq : (k : Kernel) → Inv k → at k k.level k.intr_context ≡ k
at-eq k v = λ i. record k { policy = sym v.policy i }

-- The thread `t` with the record `r` became ready: nothing else changes, and the invariant holds.
pub record Woken (k : Kernel) (t : Ptr) (r : Thread) (u : Unit {0}) (g : Kernel) : Type 0 where
  pub queue : g.fifo_ready_list ≡ k.fifo_ready_list ++ t ∷ []
  pub self : g.thread t ≡ some (record r { status = ready })
  pub others : (q : Ptr) → q ≢ t → g.thread q ≡ k.thread q
  pub running : g.running_thread ≡ k.running_thread
  pub level : g.level ≡ k.level
  pub inv : Inv g

-- thread_unblock() of a blocked thread, not the idle one, marks it ready and puts it at the end of
-- the ready list. The running thread goes on, with the interrupt level it had.
pub thread_unblock_lem :
    (k : Kernel) (t : Ptr) (r : Thread)
    → Inv k
    → Sane k
    → k.thread t ≡ some r
    → r.status ≡ blocked
    → t ≢ k.idle_thread
    → Returns (Woken k t r) (thread_unblock t k)
thread_unblock_lem k t r v sane e b ne =
    let valid = v.valid t r e in
    subst (λ x. Returns (Woken k t r) (thread_unblock t x)) (at-eq k v)
      (rw
        (unblock-at k t r e (ground (arith, valid)) (ground (arith, valid)) (ground arith) k.level
          k.intr_context sane)
        (record {
          queue = refl;
          self = ground arith;
          others = λ q x. ground arith;
          running = refl;
          level = refl;
          inv =
              subst Inv (λ i. record (woken k t r) { policy = v.policy i })
                (woken-Inv k t r v e b ne);
        }))

-- What thread_create() puts into the page.
abbrev pub newborn : ℕ → ℕ → Thread
newborn tid priority = record {
  tid = tid;
  status = blocked;
  priority = priority;
  user = false;
  magic = thread_magic;
  on_return = on;
}

-- The kernel with a blocked thread more.
abbrev pub born : Kernel → Ptr → ℕ → Kernel
born k page priority = record k {
  thread = update k.thread page (some (newborn k.next_tid priority));
  all_list = k.all_list ++ page ∷ [];
  next_tid = suc k.next_tid;
}

born-Inv :
    (k : Kernel) (page : Ptr) (priority : ℕ)
    → Inv k
    → k.thread page ≡ none
    → page ≢ null
    → Inv (born k page priority)
born-Inv k page priority v e ne = record {
  policy = v.policy;
  current = ground (arith, v.current);
  only = λ q h. ground (arith, v.only q);
  queued = λ q h. ground (arith, v.queued q);
  listed = λ q h x. ground (arith, v.listed q);
  distinct = v.distinct;
  idle = (ground (arith, v.idle), v.idle.1);
  valid = λ q x h. ground (arith, v.valid q x);
}

-- A new thread in `page`, which is ready.
pub record Created (k : Kernel) (page : Ptr) (priority : ℕ) (a : Option ℕ) (g : Kernel)
    : Type 0 where
  pub answer : a ≡ some k.next_tid
  pub woken : Woken (born k page priority) page (newborn k.next_tid priority) tt g

pub update_twice :
    {A : Type 0} (f : Ptr → A) (p : Ptr) (a b : A) → update (update f p a) p b ≡ update f p b
update_twice f p a b = λ i q. at_point q i
  where
    at_point : (q : Ptr) → update (update f p a) p b q ≡ update f p b q
    at_point q = ground arith

assert-true : (b : Bool) (k : Kernel) → b ≡ true → assert b k ≡ ok tt k
assert-true b k e = rw e refl

-- allocate_tid() outside of handlers.
allocate_tid-ok :
    (k : Kernel)
    → k.intr_context ≡ false
    → thread_current k ≡ ok k.running_thread k
    → allocate_tid k ≡ ok k.next_tid (record k { next_tid = suc k.next_tid })
unfolding allocate_tid
allocate_tid-ok k context running =
    rw (assert-true (not k.intr_context) k (ap not context)) (rw running refl)

-- The kernel once the page is initialised.
abbrev after_init : Kernel → Ptr → ℕ → Kernel
after_init k page priority = record k {
  thread = update k.thread page (some (newborn 0 priority));
  all_list = k.all_list ++ page ∷ [];
}

create-unblock :
    (k : Kernel) (page : Ptr) (priority : ℕ)
    → Inv k
    → k.intr_context ≡ false
    → k.thread page ≡ none
    → (page == null) ≡ false
    → leb priority pri_max ≡ true
    → thread_create page priority k
      ≡ and_then (thread_unblock page (born k page priority)) (λ _. λ g. ok (some k.next_tid) g)
unfolding thread_create init_thread
create-unblock k page priority v context e nz small =
    let (r, o) = current k v in
    let counted = allocate_tid-ok (after_init k page priority) context (
      thread_current-eq (after_init k page priority) r
        (record { cur = ground (arith, o.cur, e); live = o.live; nz = o.nz; sound = o.sound })) in
    rw nz (
      rw (nz, small)
        (rw counted (
          rw (==_refl page) (
            ap
              (λ f.
                and_then (thread_unblock page (record (born k page priority) { thread = f }))
                  (λ _. λ g. ok (some k.next_tid) g))
              (update_twice k.thread page (some (newborn 0 priority))
                (some (newborn k.next_tid priority)))))))

-- thread_create() outside of interrupt handlers, in a page that no thread has and with a priority up to
-- PRI_MAX, makes a ready thread with the next identifier at the end of the ready list; the creator goes on.
pub thread_create_lem :
    (k : Kernel) (page : Ptr) (priority : ℕ)
    → Inv k
    → k.intr_context ≡ false
    → k.thread page ≡ none
    → page ≢ null
    → priority ≤ pri_max
    → Returns (Created k page priority) (thread_create page priority k)
thread_create_lem k page priority v context e ne small =
    rw (create-unblock k page priority v context e (ground arith) (le→leb priority pri_max small)) (
      Returns-and_then (Woken (born k page priority) page (newborn k.next_tid priority)) _ _ _
        (thread_unblock_lem (born k page priority) page (newborn k.next_tid priority)
          (born-Inv k page priority v e ne) (λ l. context) (ground arith) refl
          (ground (arith, v.idle)))
        (λ u g w. record { answer = refl; woken = w }))
