-- ===== src/Synch/Tests.antt =====
-- Two threads and a lock.
use os_tools_and_features.Prelude.{◌≡◌, ◌≢◌, ◌↔◌, refl, [], ◌∷◌, true, ◌==◌, if◌then◌else◌, arith}
use os_tools_and_features.Threads.{Ptr, null}
use os_tools_and_features.Synch.{
  World, outside, entering, asleep, entered, holding, turn, start, lock_init, sema_init,
  lock_held_by, sema_down, Reachable, initial, turns,
}
use os_tools_and_features.Synch.Invariant.{critical}
use os_tools_and_features.Synch.Exclusion.{Runs, Reachable-exclusion, Reachable-progress}

-- The first thread has the lock, and the second one sleeps.
abbrev contended : World
contended = record {
  lock = record { holder = 4096; semaphore = record { value = 0; waiters = 8192 ∷ [] } };
  phase = λ t.
      if 8192 == t
      then asleep
      else if 8192 == t
      then entering
      else if 4096 == t
      then holding
      else if 4096 == t
      then entered
      else if 4096 == t
      then entering
      else outside;
}

contended-Reachable : Reachable contended
unfolding turn start lock_init sema_init lock_held_by sema_down
contended-Reachable =
    turns
      (turns
        (turns (turns (turns initial 4096 (omega arith) refl) 4096 (omega arith) refl) 4096
          (omega arith) refl)
        8192 (omega arith) refl)
      8192 (omega arith) refl

Reachable-exclusion_example :
    ((t u : Ptr)
      → critical (contended.phase t) ≡ true
      → critical (contended.phase u) ≡ true
      → t ≡ u)
    × ((t : Ptr) → t ≢ null → (contended.phase t ≡ holding) ↔ (contended.lock.holder ≡ t))
Reachable-exclusion_example = Reachable-exclusion contended contended-Reachable

Reachable-progress_example : (u : Ptr) × Runs contended contended-Reachable u
Reachable-progress_example = Reachable-progress contended contended-Reachable 8192 refl
