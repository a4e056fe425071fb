-- ===== src/RwLock/Tests.antt =====
-- Readers and writers at a lock.
use os_tools_and_features.Prelude.{◌≡◌, ◌≢◌, refl, true, false, arith}
use os_tools_and_features.Threads.{Ptr}
use os_tools_and_features.RwLock.{
  World, reading, write_woken, writing, rw_lock_init, read_round, write_round, rw_lock_acquire,
  rw_lock_again, rw_lock_release, Reachable, initial, acquires, releases,
}
use os_tools_and_features.RwLock.Guarantees.{Reachable-writer_alone, Reachable-handover}

-- Thread 1 writes, 2 waits to read and 3 to write.
abbrev busy : World
busy = rw_lock_acquire false 3 (rw_lock_acquire true 2 (rw_lock_acquire false 1 rw_lock_init))

busy-Reachable : Reachable busy
unfolding rw_lock_init rw_lock_acquire read_round write_round
busy-Reachable = acquires (acquires (acquires initial false 1 refl) true 2 refl) false 3 refl

Reachable-writer_alone_example : (busy.phase 2 ≢ reading) × (busy.phase 2 ≢ writing)
unfolding rw_lock_init rw_lock_acquire read_round write_round
Reachable-writer_alone_example = Reachable-writer_alone busy busy-Reachable 1 2 refl (omega arith)

-- Thread 1 is through, and 3 has been woken.
abbrev handed : World
handed = rw_lock_release false 1 busy

handed-Reachable : Reachable handed
unfolding rw_lock_init rw_lock_acquire read_round write_round
handed-Reachable = releases busy-Reachable false 1 refl

Reachable-handover_example :
    (u : Ptr) × (handed.phase u ≡ write_woken) × ((rw_lock_again false u handed).phase u ≡ writing)
unfolding rw_lock_init rw_lock_acquire rw_lock_release read_round write_round
Reachable-handover_example = Reachable-handover handed handed-Reachable 2 refl refl
