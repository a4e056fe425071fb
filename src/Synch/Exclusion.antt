-- ===== src/Synch/Exclusion.antt =====
-- proj-pregame/src/threads/synch.c: locks exclude each other's holders, and no waiter is forgotten.
use os_tools_and_features.Prelude.{
  ℕ, ◌≡◌, ◌≢◌, ◌∙◌, sym, subst, ap, refl, List, [], ◌∷◌, true, false, ◌==◌, ltb, ◌↔◌, ◌⊎◌, inl, inr,
  arith, Bool-cases, ==_iff,
}
use os_tools_and_features.Threads.{Ptr, null}
use os_tools_and_features.Synch.{
  World, Phase, outside, entering, asleep, woken, entered, holding, leaving, Turn, goes, blocked,
  panics, turn, try_turn, lock_held_by, sema_down, sema_up, sema_try_down, part, try_part,
  Reachable, initial, turns, tries,
}
use os_tools_and_features.Synch.Invariant.{critical, is_asleep, Owned, Inv}
use os_tools_and_features.Synch.Steps.{
  world, start-Inv, enter-Inv, sleep-Inv, take-Inv, hold-Inv, leave-Inv, pass-Inv, wake-Inv,
}

-- A turn does not fail an assertion, and the invariant holds behind it.
abbrev pub Keeps : Turn → Type 0
Keeps (goes w) = Inv w
Keeps blocked = Unit
Keeps panics = ⊥

-- The holder is a thread in the phase of holding.
not_held :
    (w : World) (t : Ptr)
    → Inv w
    → t ≢ null
    → critical (w.phase t) ≡ false
    → lock_held_by t w.lock ≡ false
unfolding lock_held_by
not_held w t v nz p = ground (arith, v.holder)

part-Keeps :
    (value : ℕ) (waiters : List Ptr) (holder : Ptr) (phase : Ptr → Phase) (t : Ptr) (p : Phase)
    → Inv (world value waiters holder phase)
    → t ≢ null
    → phase t ≡ p
    → Keeps (part t p (world value waiters holder phase))
unfolding lock_held_by sema_down sema_up
part-Keeps value waiters holder phase t outside v nz e =
    rw (not_held (world value waiters holder phase) t v nz (ap critical e))
      (enter-Inv value waiters holder phase t v nz e)
part-Keeps value waiters holder phase t entering v nz e = elim (Bool-cases (value == 0)) [
  | inl z ↦ rw z (sleep-Inv value waiters holder phase t v nz (ap critical e) (ap is_asleep e) z)
  | inr n ↦ rw n (take-Inv value waiters holder phase t v nz (ap critical e) (ap is_asleep e) n)
]
part-Keeps value waiters holder phase t asleep v nz e = tt
part-Keeps value waiters holder phase t woken v nz e = elim (Bool-cases (value == 0)) [
  | inl z ↦ rw z (sleep-Inv value waiters holder phase t v nz (ap critical e) (ap is_asleep e) z)
  | inr n ↦ rw n (take-Inv value waiters holder phase t v nz (ap critical e) (ap is_asleep e) n)
]
part-Keeps value waiters holder phase t entered v nz e =
    hold-Inv value waiters holder phase t v nz e
part-Keeps value waiters holder phase t holding v nz e =
    rw ((==_iff holder t).1 (v.held t e)) (leave-Inv value waiters holder phase t v nz e)
part-Keeps value [] holder phase t leaving v nz e = pass-Inv value [] holder phase t v nz e refl
part-Keeps value (x ∷ xs) holder phase t leaving v nz e =
    wake-Inv value (x ∷ xs) holder phase t v nz x xs e refl

-- From a state where the invariant of the lock holds, the next atomic part of any thread fails no
-- assertion of lock_acquire() or lock_release() and keeps the invariant.
pub turn-Keeps : (w : World) (t : Ptr) → Inv w → t ≢ null → Keeps (turn t w)
unfolding turn
turn-Keeps w t v nz =
    part-Keeps w.lock.semaphore.value w.lock.semaphore.waiters w.lock.holder w.phase t (w.phase t) v
      nz refl

try_part-Keeps :
    (value : ℕ) (waiters : List Ptr) (holder : Ptr) (phase : Ptr → Phase) (t : Ptr) (p : Phase)
    → Inv (world value waiters holder phase)
    → t ≢ null
    → phase t ≡ p
    → Keeps (try_part t p (world value waiters holder phase))
unfolding lock_held_by sema_try_down
try_part-Keeps value waiters holder phase t outside v nz e =
    rw (not_held (world value waiters holder phase) t v nz (ap critical e))
      (elim (Bool-cases (ltb 0 value)) [
        | inl free ↦ rw free (
            take-Inv value waiters holder phase t v nz (ap critical e) (ap is_asleep e)
              (ground arith))
        | inr taken ↦ rw taken v
      ])
try_part-Keeps value waiters holder phase t entering v nz e = tt
try_part-Keeps value waiters holder phase t asleep v nz e = tt
try_part-Keeps value waiters holder phase t woken v nz e = tt
try_part-Keeps value waiters holder phase t entered v nz e = tt
try_part-Keeps value waiters holder phase t holding v nz e = tt
try_part-Keeps value waiters holder phase t leaving v nz e = tt

-- The same for lock_try_acquire().
pub try_turn-Keeps : (w : World) (t : Ptr) → Inv w → t ≢ null → Keeps (try_turn t w)
unfolding try_turn
try_turn-Keeps w t v nz =
    try_part-Keeps w.lock.semaphore.value w.lock.semaphore.waiters w.lock.holder w.phase t
      (w.phase t) v nz refl

pub Reachable-Inv : (w : World) → Reachable w → Inv w
Reachable-Inv w initial = start-Inv
Reachable-Inv w' (turns {w} r t nz e) = subst Keeps e (turn-Keeps w t (Reachable-Inv w r) nz)
Reachable-Inv w' (tries {w} r t nz e) = subst Keeps e (try_turn-Keeps w t (Reachable-Inv w r) nz)

module _ (w : World) (r : Reachable w) where
  -- In every state that threads can get to by turns of lock_acquire(), lock_try_acquire() and
  -- lock_release() in any order, at most one of them is between taking the semaphore of the lock and
  -- giving it back, and the holder on record is a thread that holds the lock.
  pub Reachable-exclusion :
      ((t u : Ptr) → critical (w.phase t) ≡ true → critical (w.phase u) ≡ true → t ≡ u)
      × ((t : Ptr) → t ≢ null → (w.phase t ≡ holding) ↔ (w.lock.holder ≡ t))
  Reachable-exclusion =
      let v = Reachable-Inv w r in
      (
        λ t u h h'. one v.owned t u h h',
        λ t nz.
            (v.held t, λ e. subst (λ x. w.phase x ≡ holding) e (v.holder (λ n. nz (sym e ∙ n)))),
      )
    where
      one :
          Owned w.lock.semaphore.value w.phase
          → (t u : Ptr) → critical (w.phase t) ≡ true
          → critical (w.phase u) ≡ true
          → t ≡ u
      one (inl (e, f)) t u h h' = ground (arith, f t)
      one (inr (o, e, h, only)) t u x x' = only t x ∙ sym (only u x')

  -- A thread has the semaphore of the lock, or it was woken and the semaphore is there to be taken, and
  -- its next turn is possible.
  abbrev pub Runs : Ptr → Type 0
  Runs u =
      ((critical (w.phase u) ≡ true) ⊎ ((w.phase u ≡ woken) × (w.lock.semaphore.value ≡ 1)))
      × (w' : World) × (turn u w ≡ goes w')

  goes-Keeps : (r : Turn) → Keeps r → r ≢ blocked → (w' : World) × (r ≡ goes w')
  goes-Keeps (goes w') k n = (w', refl)
  goes-Keeps blocked k n = absurd (n refl)
  goes-Keeps panics k n = elim k [ ]

  awake : (u : Ptr) (p : Phase) → p ≢ asleep → part u p w ≢ blocked
  unfolding lock_held_by sema_down sema_up
  awake u outside n e = ground arith
  awake u entering n e = ground arith
  awake u asleep n e = n refl
  awake u woken n e = ground arith
  awake u entered n e = cc
  awake u holding n e = ground arith
  awake u leaving n e = cc

  runs :
      Inv w
      → (u : Ptr) → w.phase u ≢ outside
      → w.phase u ≢ asleep
      → (w' : World) × (turn u w ≡ goes w')
  unfolding turn
  runs v u n a =
      goes-Keeps (turn u w) (turn-Keeps w u v (λ e. n (ap w.phase e ∙ v.nobody)))
        (awake u (w.phase u) a)

  -- While a thread sleeps in sema_down() for the lock, another one can go on that is between taking the
  -- semaphore of the lock and giving it back, or that was woken by sema_up(), has not tried again since,
  -- and finds the semaphore at 1. No wake-up is lost.
  pub Reachable-progress : (t : Ptr) → w.phase t ≡ asleep → (u : Ptr) × Runs u
  Reachable-progress t a =
      let v = Reachable-Inv w r in
      elim v.owned [
        | inr (o, e, h, only) ↦
            let (w', q) = runs v o (λ x. ground arith) (λ x. ground arith) in (o, (inl h, w', q))
        | inl (e, f) ↦ elim v.queued.wakened [
          | inl empty ↦ ground (arith, v.queued.waiting t)
          | inr (inl zero) ↦ ground arith
          | inr (inr (u, e')) ↦
              let (w', q) = runs v u (λ x. ground arith) (λ x. ground arith) in
              (u, (inr (e', e), w', q))
        ]
      ]
