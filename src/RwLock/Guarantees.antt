-- ===== src/RwLock/Guarantees.antt =====
-- proj-pregame/src/threads/synch.c: what the readers-writers lock promises.
use os_tools_and_features.Prelude.{
  suc, ◌+◌, ◌-◌, ◌<◌, ◌≡◌, ◌≢◌, ◌∙◌, sym, subst, ap, refl, List, [], ◌∷◌, ◌++◌, Bool, true, false,
  ◌==◌, ◌&&◌, ltb, inl, inr, arith, Bool-cases, length,
}
use os_tools_and_features.Threads.{Ptr}
use os_tools_and_features.Threads.Invariant.{has}
use os_tools_and_features.Threads.Wake.{update_twice}
use os_tools_and_features.RwLock.{
  World, Phase, outside, read_waiting, reading, write_waiting, write_woken, writing, move,
  rw_lock_init, read_round, write_round, rw_lock_acquire, rw_lock_again, rw_lock_release,
  last_reader, hand_over, woken_of, active_of, Reachable, initial, acquires, resumes, releases,
}
use os_tools_and_features.RwLock.Counts.{Counted-positive, Counted-some}
use os_tools_and_features.RwLock.Invariant.{
  reads, writes, read_waits, write_waits, in_write, Base, Handed, Patient, Inv,
}
use os_tools_and_features.RwLock.Sections.{
  read_sleep-Inv, reads-Inv, write_sleep-Inv, writes-Inv, leave_reading-Base, leave_writing-Base,
  leave_read_woken-Base, leave_write_woken-Base, signal_write-Inv, broadcast_read-Inv,
}

init-Inv : Inv rw_lock_init
unfolding rw_lock_init
init-Inv = (
  record {
    readers = ([], tt, refl, λ t. refl);
    waiting_readers = ([], tt, refl, λ t. refl);
    writers = ([], tt, refl, λ t. refl);
    waiting_writers = ([], tt, refl, λ t. refl);
    read_queue = λ t. refl;
    write_queue = λ t. refl;
    read_once = tt;
    write_once = tt;
    alone = inl refl;
  },
  λ z n. absurd (n refl),
  λ z. refl,
)

read_round-Inv : (w : World) (t : Ptr) → Inv w → w.phase t ≡ outside → Inv (read_round t w)
unfolding read_round
read_round-Inv w t (v, h, q) p = elim (Bool-cases (ltb 0 (w.aw + w.ww))) [
  | inl wait ↦ rw wait (read_sleep-Inv w t v p wait h)
  | inr go ↦ rw go (reads-Inv w t v p go q)
]

write_round-Inv : (w : World) (t : Ptr) → Base w → w.phase t ≡ outside → Inv (write_round t w)
unfolding write_round
write_round-Inv w t v p = elim (Bool-cases (ltb 0 (w.ar + w.aw))) [
  | inl wait ↦ rw wait (write_sleep-Inv w t v p wait)
  | inr go ↦ rw go (writes-Inv w t v p go)
]

-- A round does not read where its own thread was.
read_round-move : (w : World) (t : Ptr) (p : Phase) → read_round t (move t p w) ≡ read_round t w
unfolding read_round
read_round-move w t p = elim (Bool-cases (ltb 0 (w.aw + w.ww))) [
  | inl wait ↦ rw wait (
      ap (λ f. record w { wr = suc w.wr; read = w.read ++ t ∷ []; phase = f })
        (update_twice w.phase t p read_waiting))
  | inr go ↦
      rw go (ap (λ f. record w { ar = suc w.ar; phase = f }) (update_twice w.phase t p reading))
]

write_round-move : (w : World) (t : Ptr) (p : Phase) → write_round t (move t p w) ≡ write_round t w
unfolding write_round
write_round-move w t p = elim (Bool-cases (ltb 0 (w.ar + w.aw))) [
  | inl wait ↦ rw wait (
      ap (λ f. record w { ww = suc w.ww; write = w.write ++ t ∷ []; phase = f })
        (update_twice w.phase t p write_waiting))
  | inr go ↦
      rw go (ap (λ f. record w { aw = suc w.aw; phase = f }) (update_twice w.phase t p writing))
]

acquire-Inv :
    (w : World) (b : Bool) (t : Ptr) → Inv w → w.phase t ≡ outside → Inv (rw_lock_acquire b t w)
unfolding rw_lock_acquire
acquire-Inv w true t v p = read_round-Inv w t v p
acquire-Inv w false t v p = write_round-Inv w t v.0 p

again-Inv :
    (w : World) (b : Bool) (t : Ptr) → Inv w → w.phase t ≡ woken_of b → Inv (rw_lock_again b t w)
unfolding rw_lock_again
again-Inv w true t (v, h, q) p =
    subst Inv (read_round-move (record w { wr = w.wr - 1 }) t outside) (
      read_round-Inv (move t outside (record w { wr = w.wr - 1 })) t
        (leave_read_woken-Base w t v p, (λ z n. let (u, e) = h z n in (u, ground arith)), q)
        (ground arith))
again-Inv w false t (v, h, q) p =
    subst Inv (write_round-move (record w { ww = w.ww - 1 }) t outside) (
      write_round-Inv (move t outside (record w { ww = w.ww - 1 })) t
        (leave_write_woken-Base w t v p) (ground arith))

-- A queue that is not empty is counted.
no_writers : (w : World) → Base w → ltb 0 w.ww ≡ false → w.write ≡ []
no_writers w v z = go w.write refl
  where
    go : (ws : List Ptr) → w.write ≡ ws → w.write ≡ []
    go [] e = e
    go (x ∷ xs) e =
        ground
          (arith, v.write_queue x, Counted-positive write_waits w.phase w.ww x v.waiting_writers)

no_readers : (w : World) → Base w → ltb 0 w.wr ≡ false → w.read ≡ []
no_readers w v z = go w.read refl
  where
    go : (ws : List Ptr) → w.read ≡ ws → w.read ≡ []
    go [] e = e
    go (x ∷ xs) e =
        ground (arith, v.read_queue x, Counted-positive read_waits w.phase w.wr x v.waiting_readers)

last_reader-Inv : (w : World) → Base w → Patient w → Inv (last_reader w)
last_reader-Inv w v q = elim (Bool-cases (w.ar == 0 && ltb 0 w.ww)) [
  | inl hand ↦ rw hand (signal_write-Inv w w.write v refl (ground arith))
  | inr keep ↦ rw keep (v, (λ z n. absurd (n (no_writers w v (ground arith)))), q)
]

hand_over-Inv : (w : World) → Base w → Inv (hand_over w)
hand_over-Inv w v = elim (Bool-cases (ltb 0 w.ww)) [
  | inl hand ↦ rw hand (signal_write-Inv w w.write v refl (ground arith))
  | inr none ↦ rw none (elim (Bool-cases (ltb 0 w.wr)) [
    | inl wake ↦ rw wake (broadcast_read-Inv w v (no_writers w v none))
    | inr idle ↦ rw idle (v, (λ z n. absurd (n (no_writers w v none))), λ z. no_readers w v idle)
  ])
]

release-Inv :
    (w : World) (b : Bool) (t : Ptr) → Inv w → w.phase t ≡ active_of b → Inv (rw_lock_release b t w)
unfolding rw_lock_release
release-Inv w true t (v, h, q) p =
    last_reader-Inv (move t outside (record w { ar = w.ar - 1 })) (leave_reading-Base w t v p) q
release-Inv w false t (v, h, q) p =
    hand_over-Inv (move t outside (record w { aw = w.aw - 1 })) (leave_writing-Base w t v p)

pub Reachable-Inv : (w : World) → Reachable w → Inv w
Reachable-Inv w initial = init-Inv
Reachable-Inv w' (acquires {w} r b t p) = acquire-Inv w b t (Reachable-Inv w r) p
Reachable-Inv w' (resumes {w} r b t p) = again-Inv w b t (Reachable-Inv w r) p
Reachable-Inv w' (releases {w} r b t p) = release-Inv w b t (Reachable-Inv w r) p

-- A list of one element has it only.
single : (xs : List Ptr) (t u : Ptr) → length xs ≡ 1 → has t xs ≡ true → has u xs ≡ true → t ≡ u
single [] t u l h h' = ground arith
single (x ∷ []) t u l h h' = ground arith
single (x ∷ y ∷ xs) t u l h h' = omega arith

abbrev pub sleeps : Phase → Bool
sleeps read_waiting = true
sleeps write_waiting = true
sleeps _ = false

module _ (w : World) (r : Reachable w) where
  -- In every state that readers and writers can get to by sections of rw_lock_acquire() and
  -- rw_lock_release() in any order, a thread that has the lock to write is alone: no other thread has
  -- it, to read or to write.
  pub Reachable-writer_alone :
      (t u : Ptr) → w.phase t ≡ writing → u ≢ t → (w.phase u ≢ reading) × (w.phase u ≢ writing)
  Reachable-writer_alone t u p ne = go (Reachable-Inv w r).0
    where
      go : Base w → (w.phase u ≢ reading) × (w.phase u ≢ writing)
      go v =
          let some_writer = Counted-positive writes w.phase w.aw t v.writers (ap writes p) in
          let (xs, d, l, h) = v.writers in
          (
            (λ e. ground (
              arith,
              v.alone,
              Counted-positive reads w.phase w.ar u v.readers (ap reads e),
              some_writer,
            )),
            λ e. ne (
                sym (
                  single xs t u (l ∙ ground (arith, v.alone)) (h t ∙ ap writes p)
                    (h u ∙ ap writes e))),
          )

  -- While a thread sleeps in rw_lock_acquire() and nobody has the lock, a writer has been woken, and it
  -- gets the lock if its turn comes before the lock is taken. No wake-up is lost.
  pub Reachable-handover :
      (t : Ptr)
      → sleeps (w.phase t) ≡ true
      → w.ar + w.aw ≡ 0
      → (u : Ptr) × (w.phase u ≡ write_woken) × ((rw_lock_again false u w).phase u ≡ writing)
  unfolding rw_lock_again write_round
  Reachable-handover t s free = go (Reachable-Inv w r)
    where
      gets :
          (u : Ptr)
          → w.phase u ≡ write_woken
          → (u : Ptr) × (w.phase u ≡ write_woken) × ((rw_lock_again false u w).phase u ≡ writing)
      gets u e = (u, e, ground arith)

      wanted : Base w → Patient w → 0 < w.ww
      wanted v q = elim (Bool-cases (ltb 0 w.ww)) [
        | inl y ↦ ground arith
        | inr z ↦ ground (arith, q, no_writers w v z, v.read_queue t, v.write_queue t)
      ]

      queue :
          Base w
          → Handed w
          → (x : Ptr) → w.phase x ≡ write_waiting
          → (u : Ptr) × (w.phase u ≡ write_woken)
      queue v h x e = h free (λ n. ground (arith, v.write_queue x))

      go :
          Inv w
          → (u : Ptr) × (w.phase u ≡ write_woken) × ((rw_lock_again false u w).phase u ≡ writing)
      go (v, h, q) =
          let (x, e) = Counted-some write_waits w.phase w.ww v.waiting_writers (wanted v q) in
          elim (Bool-cases (in_write (w.phase x))) [
            | inl waits ↦ let (u, f) = queue v h x (ground arith) in gets u f
            | inr woken ↦ gets x (ground arith)
          ]
