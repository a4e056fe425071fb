-- ===== src/Threads/Schedule.antt =====
-- proj-pregame/src/threads/thread.c: schedule() leads from a state in which no thread is marked as
-- running to one where the invariant holds again.
use os_tools_and_features.Prelude.{
  ◌≡◌, ◌≢◌, sym, subst, List, [], ◌∷◌, Option, none, some, Bool, true, false, ◌==◌, ◌&&◌, not,
  arith, refl, if◌then◌else◌, Bool-cases, ==_iff, inl, inr,
}
use os_tools_and_features.Threads.{
  Ptr, null, thread_magic, running, ready, Level, off, Thread, Kernel, is_dying, is_running, update,
  and_then, schedule, resume, thread_switch_tail,
}
use os_tools_and_features.Threads.Invariant.{mono, Returns, status_in, has, Distinct, Inv}
use os_tools_and_features.Threads.Switch.{
  next_of, rest_of, state, runs, Switched, IsThread, schedule_other, schedule_same,
  switch_tail_same, switch_tail_other, switch_tail_dying,
}

-- The threads and the ready list before a switch.
pub record PreInv (rest : Ptr) (thread : Ptr → Option Thread) (q : List Ptr) : Type 0 where
  pub quiet : (t : Ptr) → status_in (thread t) ≢ some running
  pub queued : (t : Ptr) → has t q ≡ true → status_in (thread t) ≡ some ready
  pub listed : (t : Ptr) → status_in (thread t) ≡ some ready → t ≢ rest → has t q ≡ true
  pub distinct : Distinct q
  pub idle : (status_in (thread rest) ≢ none) × (has rest q ≡ false)
  pub valid : (t : Ptr) (r : Thread) → thread t ≡ some r → (t ≢ null) × (r.magic ≡ thread_magic)

some_thread : (o : Option Thread) → status_in o ≢ none → (r : Thread) × (o ≡ some r)
some_thread none h = absurd (h refl)
some_thread (some r) h = (r, refl)

-- The next thread is there.
pub next-thread :
    {idle : Ptr} {thread : Ptr → Option Thread} (q : List Ptr)
    → PreInv idle thread q
    → (r : Thread) × (thread (next_of q idle) ≡ some r)
next-thread {idle} {thread} [] v = some_thread (thread idle) v.idle.0
next-thread {idle} {thread} (t ∷ ts) v = some_thread (thread t) (λ e. ground (arith, v.queued t))

module _ (k : Kernel) (th : Ptr → Option Thread) (n : Ptr) (rn : Thread) (l : Level) where
  abbrev after : List Ptr → Kernel
  after q = record (state k (update th n (some (runs rn))) q n l) { thread_ticks = 0 }

  after-Inv_idle : PreInv k.idle_thread th [] → n ≡ k.idle_thread → th n ≡ some rn → Inv (after [])
  after-Inv_idle v e new = record {
    policy = refl;
    current = ground arith;
    only = λ t h. ground (arith, v.quiet t);
    queued = λ t h. cc;
    listed = λ t h ne. ground (arith, v.listed t);
    distinct = tt;
    idle = (ground arith, refl);
    valid = λ t r h. ground (arith, v.valid t r, v.valid n rn new);
  }

  after-Inv : (ts : List Ptr) → PreInv k.idle_thread th (n ∷ ts) → th n ≡ some rn → Inv (after ts)
  after-Inv ts v new = record {
    policy = refl;
    current = ground arith;
    only = λ t h. ground (arith, v.quiet t);
    queued = λ t h. ground (arith, v.queued t, v.distinct.0);
    listed = λ t h ne. ground (arith, v.listed t);
    distinct = v.distinct.1;
    idle = (ground (arith, v.idle), ground (arith, v.idle));
    valid = λ t r h. ground (arith, v.valid t r, v.valid n rn new);
  }

-- The thread `c` with record `r` is dead, and its page goes back.
abbrev pub dies : Kernel → Ptr → Thread → Bool
dies k c r = is_dying r.status && not (c == k.initial_thread)

-- A switch from `c`, with record `r`, out of the threads `th` and the ready list `q`.
pub record Switches (k : Kernel) (th : Ptr → Option Thread) (q : List Ptr) (c : Ptr) (r : Thread)
    (u : Unit {0}) (g : Kernel) : Type 0 where
  pub running : g.running_thread ≡ next_of q k.idle_thread
  pub queue : g.fifo_ready_list ≡ rest_of q
  pub inv : Inv g
  pub context : g.intr_context ≡ false
  pub idle : g.idle_thread ≡ k.idle_thread
  pub slice : g.thread_ticks ≡ 0
  pub kept : (t : Ptr) → t ≢ c → t ≢ next_of q k.idle_thread → g.thread t ≡ th t
  pub old : c ≢ next_of q k.idle_thread → g.thread c ≡ (if dies k c r then none else some r)

module _ (k : Kernel) (c : Ptr) (r rn : Thread) where
  after_switch-Inv :
      (th : Ptr → Option Thread) (q : List Ptr) (l : Level)
      → PreInv k.idle_thread th q
      → th (next_of q k.idle_thread) ≡ some rn
      → Inv (after k th (next_of q k.idle_thread) rn l (rest_of q))
  after_switch-Inv th [] l v new = after-Inv_idle k th k.idle_thread rn l v refl new
  after_switch-Inv th (t ∷ ts) l v new = after-Inv k th t rn l ts v new

  Switched-Switches :
      (th th' : Ptr → Option Thread) (q : List Ptr) (g : Kernel)
      → PreInv k.idle_thread th' q
      → th' (next_of q k.idle_thread) ≡ some rn
      → ((t : Ptr) → t ≢ c → th' t ≡ th t)
      → (c ≢ next_of q k.idle_thread → th' c ≡ (if dies k c r then none else some r))
      → Switched k th' (rest_of q) (next_of q k.idle_thread) rn tt g
      → Switches k th q c r tt g
  Switched-Switches th th' q g v new same gone e = rw e (record {
    running = refl;
    queue = refl;
    inv = after_switch-Inv th' q rn.on_return v new;
    context = refl;
    idle = refl;
    slice = refl;
    kept = λ t ne ne'. ground (arith, same t);
    old = λ ne. ground (arith, gone);
  })

  -- Without the page of a dead thread.
  PreInv-without :
      (th : Ptr → Option Thread) (q : List Ptr)
      → PreInv k.idle_thread th q
      → th c ≡ some r
      → r.status ≢ ready
      → c ≢ k.idle_thread
      → PreInv k.idle_thread (update th c none) q
  PreInv-without th q v old ne away = record {
    quiet = λ t. ground (arith, v.quiet t);
    queued = λ t h. ground (arith, v.queued t);
    listed = λ t h x. ground (arith, v.listed t);
    distinct = v.distinct;
    idle = (ground (arith, v.idle), v.idle.1);
    valid = λ t s h. ground (arith, v.valid t s);
  }

  pub schedule-Switches :
      (th : Ptr → Option Thread) (q : List Ptr)
      → PreInv k.idle_thread th q
      → th c ≡ some r
      → th (next_of q k.idle_thread) ≡ some rn
      → is_running r.status ≡ false
      → (is_dying r.status ≡ true → (c == next_of q k.idle_thread) ≡ false)
      → (is_dying r.status ≡ true → c ≢ k.idle_thread)
      → Returns (Switches k th q c r) (and_then (schedule (state k th q c off)) (λ _. resume))
  schedule-Switches th q v old new stopped alone away =
      elim (Bool-cases (c == next_of q k.idle_thread)) [
        | inl eq ↦
            let e : c ≡ next_of q k.idle_thread = (==_iff c _).0 eq in
            schedule_same k c r rn (Switches k th q c r) q th new valid old stopped eq (
              subst
                (λ x.
                  Returns (Switches k th q c r) (
                    and_then (thread_switch_tail null (state k th (rest_of q) x off))
                      (λ _. resume)))
                (sym e)
                (mono (Switched k th (rest_of q) (next_of q k.idle_thread) rn) _ _
                  (switch_tail_same k c (next_of q k.idle_thread) r rn (rest_of q) th new)
                  λ u g s. Switched-Switches th th q g v new (λ t x. refl) (λ x. absurd (x e)) s))
        | inr ne ↦
            schedule_other k c r rn (Switches k th q c r) q th new valid old stopped ne
              (elim (Bool-cases (dies k c r)) [
                | inl dead ↦
                    mono (Switched k (update th c none) (rest_of q) (next_of q k.idle_thread) rn) _
                      _
                      (switch_tail_dying k c (next_of q k.idle_thread) r rn (rest_of q) th new old
                        ne (ground arith) (ground (arith, v.valid c r old)) dead)
                      λ u g s.
                        Switched-Switches th (update th c none) q g
                          (PreInv-without th q v old (λ x. ground arith) (away (ground arith)))
                          (ground arith) (λ t x. ground arith) (λ x. ground arith) s
                | inr alive ↦
                    mono (Switched k th (rest_of q) (next_of q k.idle_thread) rn) _ _
                      (switch_tail_other k c (next_of q k.idle_thread) r rn (rest_of q) th new old
                        ne (ground arith) (ground (arith, v.valid c r old)) alive)
                      λ u g s. Switched-Switches th th q g v new (λ t x. refl) (λ x. rw alive old) s
              ])
      ]
    where
      valid : IsThread (next_of q k.idle_thread) rn
      valid = ground (arith, v.valid (next_of q k.idle_thread) rn new)
