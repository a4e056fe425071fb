-- ===== src/Threads/Invariant.antt =====
-- proj-pregame/src/threads/thread.c: what holds of the threads between two calls.
use os_tools_and_features.Prelude.{
  ◌≡◌, ◌≢◌, List, [], ◌∷◌, ◌++◌, Option, none, some, Bool, true, false, ◌==◌, ◌||◌, arith, refl,
}
use os_tools_and_features.Threads.{
  Ptr, null, thread_magic, Status, running, ready, fifo, Thread, Kernel, Run, ok, panics, and_then,
}

abbrev pub has : Ptr → List Ptr → Bool
has t [] = false
has t (x ∷ xs) = (x == t) || has t xs

abbrev pub Distinct : List Ptr → Type 0
Distinct [] = Unit
Distinct (x ∷ xs) = (has x xs ≡ false) × Distinct xs

abbrev pub status_in : Option Thread → Option Status
status_in none = none
status_in (some r) = some r.status

abbrev pub status_of : Kernel → Ptr → Option Status
status_of k t = status_in (k.thread t)

-- `active_sched_policy` is the one that is there; one thread is running, at most the idle thread
-- is ready and not in the list, and the list has each ready thread once.
pub record Inv (k : Kernel) : Type 0 where
  pub policy : k.policy ≡ fifo
  pub current : status_of k k.running_thread ≡ some running
  pub only : (q : Ptr) → status_of k q ≡ some running → q ≡ k.running_thread
  pub queued : (q : Ptr) → has q k.fifo_ready_list ≡ true → status_of k q ≡ some ready
  pub listed :
      (q : Ptr) → status_of k q ≡ some ready → q ≢ k.idle_thread → has q k.fifo_ready_list ≡ true
  pub distinct : Distinct k.fifo_ready_list
  pub idle : (status_of k k.idle_thread ≢ none) × (has k.idle_thread k.fifo_ready_list ≡ false)
  pub valid : (q : Ptr) (r : Thread) → k.thread q ≡ some r → (q ≢ null) × (r.magic ≡ thread_magic)

-- Runs that do not panic.
abbrev pub Returns : {A : Type 0} → (A → Kernel → Type 0) → Run A → Type 0
Returns P (ok a k) = P a k
Returns P panics = ⊥

pub has-append : (t : Ptr) (xs ys : List Ptr) → has t (xs ++ ys) ≡ (has t xs || has t ys)
has-append t [] ys = refl
has-append t (x ∷ xs) ys = ground (arith, has-append t xs ys)

pub Distinct-snoc :
    (xs : List Ptr) (t : Ptr) → Distinct xs → has t xs ≡ false → Distinct (xs ++ t ∷ [])
Distinct-snoc [] t d h = (refl, tt)
Distinct-snoc (x ∷ xs) t (e, d) h =
    (ground (arith, has-append x xs (t ∷ [])), Distinct-snoc xs t d (ground arith))

-- A known status, with the record that holds it.
pub status_record :
    (k : Kernel) (q : Ptr) (s : Status)
    → status_of k q ≡ some s
    → (r : Thread) × (k.thread q ≡ some r) × (r.status ≡ s)
status_record k q s e = go (k.thread q) refl e
  where
    go :
        (o : Option Thread)
        → k.thread q ≡ o
        → status_in o ≡ some s
        → (r : Thread) × (k.thread q ≡ some r) × (r.status ≡ s)
    go none h e = cc
    go (some r) h e = (r, h, cc)

pub mono :
    {A : Type 0} (P Q : A → Kernel → Type 0) (r : Run A)
    → Returns P r
    → ((a : A) (g : Kernel) → P a g → Q a g)
    → Returns Q r
mono P Q (ok a g) p f = f a g p
mono P Q panics p f = p

pub Returns-and_then :
    {A B : Type 0} (P : A → Kernel → Type 0) (Q : B → Kernel → Type 0) (m : Run A)
    (f : A → Kernel → Run B)
    → Returns P m
    → ((a : A) (g : Kernel) → P a g → Returns Q (f a g))
    → Returns Q (and_then m f)
Returns-and_then P Q (ok a g) f p h = h a g p
Returns-and_then P Q panics f p h = p
