-- ===== src/Synch/Invariant.antt =====
-- proj-pregame/src/threads/synch.c: what holds of a lock and its threads between two atomic parts.
use os_tools_and_features.Prelude.{ℕ, ◌≡◌, ◌≢◌, List, [], Bool, true, false, ◌⊎◌}
use os_tools_and_features.Threads.{Ptr, null}
use os_tools_and_features.Threads.Invariant.{has, Distinct}
use os_tools_and_features.Synch.{
  World, Phase, outside, entering, asleep, woken, entered, holding, leaving,
}

-- Between the decrement and the increment of the semaphore.
abbrev pub critical : Phase → Bool
critical outside = false
critical entering = false
critical asleep = false
critical woken = false
critical entered = true
critical holding = true
critical leaving = true

abbrev pub is_asleep : Phase → Bool
is_asleep asleep = true
is_asleep _ = false

-- Nobody has the lock and its semaphore is 1, or one thread has it and the semaphore is 0.
abbrev pub Owned : ℕ → (Ptr → Phase) → Type 0
Owned value phase =
    ((value ≡ 1) × ((t : Ptr) → critical (phase t) ≡ false))
    ⊎ ((o : Ptr) × (value ≡ 0)
        × (critical (phase o) ≡ true)
        × ((t : Ptr) → critical (phase t) ≡ true → t ≡ o))

-- The waiters are the threads that sleep; when the semaphore is free and waited for, a thread
-- has been woken and not yet tried again.
pub record Queued (value : ℕ) (waiters : List Ptr) (phase : Ptr → Phase) : Type 0 where
  pub waiting : (t : Ptr) → has t waiters ≡ is_asleep (phase t)
  pub distinct : Distinct waiters
  pub wakened : (waiters ≡ []) ⊎ (value ≡ 0) ⊎ ((t : Ptr) × (phase t ≡ woken))

pub record Inv (w : World) : Type 0 where
  pub owned : Owned w.lock.semaphore.value w.phase
  pub queued : Queued w.lock.semaphore.value w.lock.semaphore.waiters w.phase
  pub held : (t : Ptr) → w.phase t ≡ holding → w.lock.holder ≡ t
  pub holder : w.lock.holder ≢ null → w.phase w.lock.holder ≡ holding
  pub nobody : w.phase null ≡ outside
