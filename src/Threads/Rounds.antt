-- ===== src/Threads/Rounds.antt =====
-- proj-pregame/src/threads/thread.c: the order in which threads run that yield.
use os_tools_and_features.Prelude.{
  ℕ, zero, suc, ◌≡◌, ◌∙◌, subst, ap, List, [], ◌∷◌, ◌++◌, append_assoc, length, some, false, ◌==◌,
  arith, refl,
}
use os_tools_and_features.Threads.{Ptr, ready, Kernel, Cmd, ◌>>◌, skip, thread_yield}
use os_tools_and_features.Threads.Invariant.{Returns, mono, Returns-and_then, Inv}
use os_tools_and_features.Threads.Calls.{requeued, SwitchedTo, thread_yield_lem}

-- Each thread that runs yields, `n` times in all.
abbrev pub yields : ℕ → Cmd (Unit {0})
yields zero = skip
yields (suc n) = thread_yield >> yields n

-- `t` runs, and the ready list is `q`.
pub record Turn (t : Ptr) (q : List Ptr) (u : Unit {0}) (g : Kernel) : Type 0 where
  pub running : g.running_thread ≡ t
  pub queue : g.fifo_ready_list ≡ q
  pub inv : Inv g
  pub context : g.intr_context ≡ false

requeued_busy :
    (k : Kernel) (q : List Ptr)
    → (k.running_thread == k.idle_thread) ≡ false
    → k.fifo_ready_list ≡ q
    → requeued k ≡ q ++ k.running_thread ∷ []
requeued_busy k q ne e = rw (ne, e) refl

abbrev First : Kernel → Ptr → List Ptr → Unit {0} → Kernel → Type 0
First k x q u g = Turn x (q ++ k.running_thread ∷ []) u g × (g.idle_thread ≡ k.idle_thread)

-- The first yield, by a thread that is not the idle one.
yield_once :
    (k : Kernel) (x : Ptr) (q : List Ptr)
    → Inv k
    → k.intr_context ≡ false
    → (k.running_thread == k.idle_thread) ≡ false
    → k.fifo_ready_list ≡ x ∷ q
    → Returns (First k x q) (thread_yield k)
yield_once k x q v c ne e =
    mono (SwitchedTo k (requeued k) (some ready)) _ _ (thread_yield_lem k v c) λ u g w.
      let w' = subst (λ l. SwitchedTo k l (some ready) u g) (requeued_busy k (x ∷ q) ne e) w in
      (
        record { running = w'.running; queue = w'.queue; inv = w'.inv; context = w'.context },
        w'.idle,
      )

yield_once-idle :
    (k g : Kernel) (x : Ptr) (q : List Ptr)
    → Inv k
    → k.fifo_ready_list ≡ x ∷ q
    → g.running_thread ≡ x
    → g.idle_thread ≡ k.idle_thread
    → (g.running_thread == g.idle_thread) ≡ false
yield_once-idle k g x q v e r i = ground (arith, v.idle)

module _ (t : Ptr) where
  -- When the ready list is `xs`, then `t`, then `ys`, and the running thread is not the idle one, `t`
  -- runs after one yield for each thread of `xs` and one more; none of them panics. The ready list is
  -- then `ys`, the thread that ran at first, and `xs`: no thread is lost or overtaken.
  pub yields-round_robin :
      (xs ys : List Ptr) (k : Kernel)
      → Inv k
      → k.intr_context ≡ false
      → (k.running_thread == k.idle_thread) ≡ false
      → k.fifo_ready_list ≡ xs ++ t ∷ ys
      → Returns (Turn t (ys ++ k.running_thread ∷ xs)) (yields (suc (length xs)) k)
  yields-round_robin [] ys k v c ne e =
      Returns-and_then (First k t ys) _ _ _ (yield_once k t ys v c ne e) (λ u g w. w.0)
  yields-round_robin (x ∷ xs) ys k v c ne e =
      Returns-and_then (First k x (xs ++ t ∷ ys)) _ _ _ (yield_once k x (xs ++ t ∷ ys) v c ne e)
        λ u g w.
          subst (λ l. Returns (Turn t l) (yields (suc (length xs)) g))
            (append_assoc ys (k.running_thread ∷ []) (g.running_thread ∷ xs)
              ∙ ap (λ y. ys ++ k.running_thread ∷ y ∷ xs) w.0.running)
            (yields-round_robin xs (ys ++ k.running_thread ∷ []) g w.0.inv w.0.context
              (yield_once-idle k g x (xs ++ t ∷ ys) v e w.0.running w.1)
              (w.0.queue ∙ append_assoc xs (t ∷ ys) (k.running_thread ∷ [])))
