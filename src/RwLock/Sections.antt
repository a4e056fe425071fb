-- ===== src/RwLock/Sections.antt =====
-- proj-pregame/src/threads/synch.c: each section of rw_lock_acquire() and rw_lock_release() keeps the
-- invariant.
use os_tools_and_features.Prelude.{
  suc, ◌+◌, ◌-◌, ◌<◌, ◌≡◌, ◌∙◌, subst, ap, refl, List, [], ◌∷◌, ◌++◌, true, false, ltb,
  if◌then◌else◌, inl, inr, arith,
}
use os_tools_and_features.Threads.{Ptr, update}
use os_tools_and_features.Threads.Invariant.{has, has-append, Distinct, Distinct-snoc}
use os_tools_and_features.RwLock.{
  World, Phase, outside, read_waiting, read_woken, reading, write_waiting, write_woken, writing,
  move, signal_write, wake_all, broadcast_read,
}
use os_tools_and_features.RwLock.Counts.{Counted-same, Counted-in, Counted-out}
use os_tools_and_features.RwLock.Invariant.{
  reads, writes, read_waits, write_waits, Base, Handed, Patient, Inv,
}

module _ (w : World) (t : Ptr) (v : Base w) (p : w.phase t ≡ outside) where
  pub read_sleep-Inv :
      ltb 0 (w.aw + w.ww) ≡ true
      → Handed w
      → Inv (move t read_waiting (record w { wr = suc w.wr; read = w.read ++ t ∷ [] }))
  read_sleep-Inv b h = (
    record {
      readers = Counted-same reads w.phase w.ar _ v.readers (λ u. ground arith);
      waiting_readers =
          Counted-in read_waits w.phase w.wr t read_waiting v.waiting_readers (ap read_waits p)
            refl;
      writers = Counted-same writes w.phase w.aw _ v.writers (λ u. ground arith);
      waiting_writers =
          Counted-same write_waits w.phase w.ww _ v.waiting_writers (λ u. ground arith);
      read_queue = λ u. ground (arith, v.read_queue u, has-append u w.read (t ∷ []));
      write_queue = λ u. ground (arith, v.write_queue u);
      read_once = Distinct-snoc w.read t v.read_once (ground (arith, v.read_queue t));
      write_once = v.write_once;
      alone = v.alone;
    },
    λ z n. let (u, e) = h z n in (u, ground arith),
    λ z. ground arith,
  )

  pub reads-Inv :
      ltb 0 (w.aw + w.ww) ≡ false → Patient w → Inv (move t reading (record w { ar = suc w.ar }))
  reads-Inv b q = (
    record {
      readers = Counted-in reads w.phase w.ar t reading v.readers (ap reads p) refl;
      waiting_readers =
          Counted-same read_waits w.phase w.wr _ v.waiting_readers (λ u. ground arith);
      writers = Counted-same writes w.phase w.aw _ v.writers (λ u. ground arith);
      waiting_writers =
          Counted-same write_waits w.phase w.ww _ v.waiting_writers (λ u. ground arith);
      read_queue = λ u. ground (arith, v.read_queue u);
      write_queue = λ u. ground (arith, v.write_queue u);
      read_once = v.read_once;
      write_once = v.write_once;
      alone = inl (ground arith);
    },
    λ z n. ground arith,
    q,
  )

  pub write_sleep-Inv :
      ltb 0 (w.ar + w.aw) ≡ true
      → Inv (move t write_waiting (record w { ww = suc w.ww; write = w.write ++ t ∷ [] }))
  write_sleep-Inv b = (
    record {
      readers = Counted-same reads w.phase w.ar _ v.readers (λ u. ground arith);
      waiting_readers =
          Counted-same read_waits w.phase w.wr _ v.waiting_readers (λ u. ground arith);
      writers = Counted-same writes w.phase w.aw _ v.writers (λ u. ground arith);
      waiting_writers =
          Counted-in write_waits w.phase w.ww t write_waiting v.waiting_writers (ap write_waits p)
            refl;
      read_queue = λ u. ground (arith, v.read_queue u);
      write_queue = λ u. ground (arith, v.write_queue u, has-append u w.write (t ∷ []));
      read_once = v.read_once;
      write_once = Distinct-snoc w.write t v.write_once (ground (arith, v.write_queue t));
      alone = v.alone;
    },
    λ z n. ground arith,
    λ z. ground arith,
  )

  pub writes-Inv : ltb 0 (w.ar + w.aw) ≡ false → Inv (move t writing (record w { aw = suc w.aw }))
  writes-Inv b = (
    record {
      readers = Counted-same reads w.phase w.ar _ v.readers (λ u. ground arith);
      waiting_readers =
          Counted-same read_waits w.phase w.wr _ v.waiting_readers (λ u. ground arith);
      writers = Counted-in writes w.phase w.aw t writing v.writers (ap writes p) refl;
      waiting_writers =
          Counted-same write_waits w.phase w.ww _ v.waiting_writers (λ u. ground arith);
      read_queue = λ u. ground (arith, v.read_queue u);
      write_queue = λ u. ground (arith, v.write_queue u);
      read_once = v.read_once;
      write_once = v.write_once;
      alone = inr (ground arith, ground arith);
    },
    λ z n. ground arith,
    λ z. ground arith,
  )

module _ (w : World) (t : Ptr) (v : Base w) where
  pub leave_reading-Base : w.phase t ≡ reading → Base (move t outside (record w { ar = w.ar - 1 }))
  leave_reading-Base p = record {
    readers = Counted-out reads w.phase w.ar t outside v.readers (ap reads p) refl;
    waiting_readers = Counted-same read_waits w.phase w.wr _ v.waiting_readers (λ u. ground arith);
    writers = Counted-same writes w.phase w.aw _ v.writers (λ u. ground arith);
    waiting_writers = Counted-same write_waits w.phase w.ww _ v.waiting_writers (λ u. ground arith);
    read_queue = λ u. ground (arith, v.read_queue u);
    write_queue = λ u. ground (arith, v.write_queue u);
    read_once = v.read_once;
    write_once = v.write_once;
    alone = ground (arith, v.alone);
  }

  pub leave_writing-Base : w.phase t ≡ writing → Base (move t outside (record w { aw = w.aw - 1 }))
  leave_writing-Base p = record {
    readers = Counted-same reads w.phase w.ar _ v.readers (λ u. ground arith);
    waiting_readers = Counted-same read_waits w.phase w.wr _ v.waiting_readers (λ u. ground arith);
    writers = Counted-out writes w.phase w.aw t outside v.writers (ap writes p) refl;
    waiting_writers = Counted-same write_waits w.phase w.ww _ v.waiting_writers (λ u. ground arith);
    read_queue = λ u. ground (arith, v.read_queue u);
    write_queue = λ u. ground (arith, v.write_queue u);
    read_once = v.read_once;
    write_once = v.write_once;
    alone = inl (ground (arith, v.alone));
  }

  pub leave_read_woken-Base :
      w.phase t ≡ read_woken → Base (move t outside (record w { wr = w.wr - 1 }))
  leave_read_woken-Base p = record {
    readers = Counted-same reads w.phase w.ar _ v.readers (λ u. ground arith);
    waiting_readers =
        Counted-out read_waits w.phase w.wr t outside v.waiting_readers (ap read_waits p) refl;
    writers = Counted-same writes w.phase w.aw _ v.writers (λ u. ground arith);
    waiting_writers = Counted-same write_waits w.phase w.ww _ v.waiting_writers (λ u. ground arith);
    read_queue = λ u. ground (arith, v.read_queue u);
    write_queue = λ u. ground (arith, v.write_queue u);
    read_once = v.read_once;
    write_once = v.write_once;
    alone = v.alone;
  }

  pub leave_write_woken-Base :
      w.phase t ≡ write_woken → Base (move t outside (record w { ww = w.ww - 1 }))
  leave_write_woken-Base p = record {
    readers = Counted-same reads w.phase w.ar _ v.readers (λ u. ground arith);
    waiting_readers = Counted-same read_waits w.phase w.wr _ v.waiting_readers (λ u. ground arith);
    writers = Counted-same writes w.phase w.aw _ v.writers (λ u. ground arith);
    waiting_writers =
        Counted-out write_waits w.phase w.ww t outside v.waiting_writers (ap write_waits p) refl;
    read_queue = λ u. ground (arith, v.read_queue u);
    write_queue = λ u. ground (arith, v.write_queue u);
    read_once = v.read_once;
    write_once = v.write_once;
    alone = v.alone;
  }

-- cond_signal() on `write`.
pub signal_write-Inv :
    (w : World) (ws : List Ptr) → Base w → w.write ≡ ws → 0 < w.aw + w.ww → Inv (signal_write ws w)
signal_write-Inv w [] v e p = (v, λ z n. absurd (n e), λ z. ground arith)
signal_write-Inv w (t ∷ ts) v e p = (
  record {
    readers = Counted-same reads w.phase w.ar _ v.readers (λ u. ground (arith, v.write_queue t));
    waiting_readers =
        Counted-same read_waits w.phase w.wr _ v.waiting_readers
          (λ u. ground (arith, v.write_queue t));
    writers = Counted-same writes w.phase w.aw _ v.writers (λ u. ground (arith, v.write_queue t));
    waiting_writers =
        Counted-same write_waits w.phase w.ww _ v.waiting_writers
          (λ u. ground (arith, v.write_queue t));
    read_queue = λ u. ground (arith, v.read_queue u, v.write_queue t);
    write_queue = λ u. ground (arith, v.write_queue u, v.write_queue t, v.write_once);
    read_once = v.read_once;
    write_once = (subst Distinct e v.write_once).1;
    alone = v.alone;
  },
  λ z n. (t, ground arith),
  λ z. ground arith,
)

wake_all-eq :
    (ts : List Ptr) (phase : Ptr → Phase) (u : Ptr)
    → wake_all ts phase u ≡ (if has u ts then read_woken else phase u)
wake_all-eq [] phase u = refl
wake_all-eq (t ∷ ts) phase u = wake_all-eq ts (update phase t read_woken) u ∙ ground arith

-- cond_broadcast() on `read`.
pub broadcast_read-Inv : (w : World) → Base w → w.write ≡ [] → Inv (broadcast_read w)
broadcast_read-Inv w v e = (
  record {
    readers =
        Counted-same reads w.phase w.ar _ v.readers
          (λ u. ground (arith, wake_all-eq w.read w.phase u, v.read_queue u));
    waiting_readers =
        Counted-same read_waits w.phase w.wr _ v.waiting_readers
          (λ u. ground (arith, wake_all-eq w.read w.phase u, v.read_queue u));
    writers =
        Counted-same writes w.phase w.aw _ v.writers
          (λ u. ground (arith, wake_all-eq w.read w.phase u, v.read_queue u));
    waiting_writers =
        Counted-same write_waits w.phase w.ww _ v.waiting_writers
          (λ u. ground (arith, wake_all-eq w.read w.phase u, v.read_queue u));
    read_queue = λ u. ground (arith, wake_all-eq w.read w.phase u, v.read_queue u);
    write_queue =
        λ u. ground (arith, wake_all-eq w.read w.phase u, v.read_queue u, v.write_queue u);
    read_once = tt;
    write_once = v.write_once;
    alone = v.alone;
  },
  λ z n. absurd (n e),
  λ z. refl,
)
