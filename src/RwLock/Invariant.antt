-- ===== src/RwLock/Invariant.antt =====
-- proj-pregame/src/threads/synch.c: what holds of a readers-writers lock between two sections.
use os_tools_and_features.Prelude.{◌+◌, ◌≡◌, ◌≢◌, [], Bool, true, false, ◌⊎◌}
use os_tools_and_features.Threads.{Ptr}
use os_tools_and_features.Threads.Invariant.{has, Distinct}
use os_tools_and_features.RwLock.{
  World, Phase, read_waiting, read_woken, reading, write_waiting, write_woken, writing,
}
use os_tools_and_features.RwLock.Counts.{Counted}

abbrev pub reads : Phase → Bool
reads reading = true
reads _ = false

abbrev pub writes : Phase → Bool
writes writing = true
writes _ = false

abbrev pub read_waits : Phase → Bool
read_waits read_waiting = true
read_waits read_woken = true
read_waits _ = false

abbrev pub write_waits : Phase → Bool
write_waits write_waiting = true
write_waits write_woken = true
write_waits _ = false

abbrev pub in_read : Phase → Bool
in_read read_waiting = true
in_read _ = false

abbrev pub in_write : Phase → Bool
in_write write_waiting = true
in_write _ = false

-- The counters are right, the conditions have the threads that wait for them, and a writer is alone.
pub record Base (w : World) : Type 0 where
  pub readers : Counted w.ar reads w.phase
  pub waiting_readers : Counted w.wr read_waits w.phase
  pub writers : Counted w.aw writes w.phase
  pub waiting_writers : Counted w.ww write_waits w.phase
  pub read_queue : (t : Ptr) → has t w.read ≡ in_read (w.phase t)
  pub write_queue : (t : Ptr) → has t w.write ≡ in_write (w.phase t)
  pub read_once : Distinct w.read
  pub write_once : Distinct w.write
  pub alone : (w.aw ≡ 0) ⊎ ((w.aw ≡ 1) × (w.ar ≡ 0))

-- When the lock is free and a writer sleeps, a writer has been woken.
abbrev pub Handed : World → Type 0
Handed w = w.ar + w.aw ≡ 0 → w.write ≢ [] → (t : Ptr) × (w.phase t ≡ write_woken)

-- Readers sleep only while there is a writer that is active or waits.
abbrev pub Patient : World → Type 0
Patient w = w.aw + w.ww ≡ 0 → w.read ≡ []

abbrev pub Inv : World → Type 0
Inv w = Base w × Handed w × Patient w
