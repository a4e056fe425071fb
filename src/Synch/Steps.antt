-- ===== src/Synch/Steps.antt =====
-- proj-pregame/src/threads/synch.c: each atomic part keeps the invariant of a lock.
use os_tools_and_features.Prelude.{
  ℕ, suc, ◌-◌, ◌≡◌, ◌≢◌, ◌∙◌, sym, subst, ap, refl, List, [], ◌∷◌, ◌++◌, true, false, ◌==◌, inl,
  inr, arith,
}
use os_tools_and_features.Threads.{Ptr, null, update}
use os_tools_and_features.Threads.Invariant.{has-append, Distinct, Distinct-snoc}
use os_tools_and_features.Synch.{
  World, Phase, outside, entering, asleep, woken, entered, holding, leaving, start, lock_init,
  sema_init,
}
use os_tools_and_features.Synch.Invariant.{critical, is_asleep, Owned, Inv}

abbrev pub world : ℕ → List Ptr → Ptr → (Ptr → Phase) → World
world value waiters holder phase = record {
  lock = record { holder = holder; semaphore = record { value = value; waiters = waiters } };
  phase = phase;
}

pub start-Inv : Inv start
unfolding start lock_init sema_init
start-Inv = record {
  owned = inl (refl, λ t. refl);
  queued = record { waiting = λ t. refl; distinct = tt; wakened = inl refl };
  held = λ t h. cc;
  holder = λ h. absurd (h refl);
  nobody = refl;
}

-- Moves that do not take or give the lock.
Owned-move :
    (value : ℕ) (phase : Ptr → Phase) (t : Ptr) (p : Phase)
    → Owned value phase
    → critical p ≡ critical (phase t)
    → Owned value (update phase t p)
Owned-move value phase t p (inl (e, f)) c = inl (e, λ u. ground (arith, f u, f t))
Owned-move value phase t p (inr (o, e, h, only)) c =
    inr (o, e, ground arith, λ u x. ground (arith, only u, only t))

Owned-take :
    (value : ℕ) (phase : Ptr → Phase) (t : Ptr)
    → Owned value phase
    → (value == 0) ≡ false
    → Owned (value - 1) (update phase t entered)
Owned-take value phase t (inl (e, f)) c =
    inr (t, omega arith, ground arith, λ u x. ground (arith, f u))
Owned-take value phase t (inr (o, e, h, only)) c = ground arith

Owned-give :
    (value : ℕ) (phase : Ptr → Phase) (t : Ptr)
    → Owned value phase
    → critical (phase t) ≡ true
    → Owned (suc value) (update phase t outside)
Owned-give value phase t (inl (e, f)) c = ground (arith, f t)
Owned-give value phase t (inr (o, e, h, only)) c =
    inl (omega arith, λ u. ground (arith, only u, only t))

module _ (value : ℕ) (waiters : List Ptr) (holder : Ptr) (phase : Ptr → Phase) (t : Ptr)
    (v : Inv (world value waiters holder phase)) (nz : t ≢ null) where
  pub enter-Inv : phase t ≡ outside → Inv (world value waiters holder (update phase t entering))
  enter-Inv p = record {
    owned = Owned-move value phase t entering v.owned (ground arith);
    queued = record {
      waiting = λ u. ground (arith, v.queued.waiting u);
      distinct = v.queued.distinct;
      wakened = elim v.queued.wakened [
        | inl empty ↦ inl empty
        | inr (inl zero) ↦ inr (inl zero)
        | inr (inr (u, e)) ↦ inr (inr (u, ground arith))
      ];
    };
    held = λ u h. ground (arith, v.held u);
    holder = λ h. ground (arith, v.holder);
    nobody = ground (arith, v.nobody);
  }

  pub sleep-Inv :
      critical (phase t) ≡ false
      → is_asleep (phase t) ≡ false
      → (value == 0) ≡ true
      → Inv (world value (waiters ++ t ∷ []) holder (update phase t asleep))
  sleep-Inv p q z = record {
    owned = Owned-move value phase t asleep v.owned (ground arith);
    queued = record {
      waiting = λ u. ground (arith, v.queued.waiting u, has-append u waiters (t ∷ []));
      distinct = Distinct-snoc waiters t v.queued.distinct (ground (arith, v.queued.waiting t));
      wakened = inr (inl (ground arith));
    };
    held = λ u h. ground (arith, v.held u);
    holder = λ h. ground (arith, v.holder);
    nobody = ground (arith, v.nobody);
  }

  -- Taking the semaphore leaves it at 0.
  pub take-Inv :
      critical (phase t) ≡ false
      → is_asleep (phase t) ≡ false
      → (value == 0) ≡ false
      → Inv (world (value - 1) waiters holder (update phase t entered))
  take-Inv p q z = record {
    owned = Owned-take value phase t v.owned z;
    queued = record {
      waiting = λ u. ground (arith, v.queued.waiting u);
      distinct = v.queued.distinct;
      wakened = inr (inl (taken v.owned));
    };
    held = λ u h. ground (arith, v.held u);
    holder = λ h. ground (arith, v.holder);
    nobody = ground (arith, v.nobody);
  }
    where
      taken : Owned value phase → value - 1 ≡ 0
      taken (inl (e, f)) = omega arith
      taken (inr (o, e, h, only)) = omega arith

  locked : critical (phase t) ≡ true → value ≡ 0
  locked c = go v.owned
    where
      go : Owned value phase → value ≡ 0
      go (inl (e, f)) = ground (arith, f t)
      go (inr (o, e, h, only)) = e

  alone : critical (phase t) ≡ true → (u : Ptr) → critical (phase u) ≡ true → u ≡ t
  alone c u d = go v.owned
    where
      go : Owned value phase → u ≡ t
      go (inl (e, f)) = ground (arith, f t)
      go (inr (o, e, h, only)) = only u d ∙ sym (only t c)

  pub hold-Inv : phase t ≡ entered → Inv (world value waiters t (update phase t holding))
  hold-Inv p = record {
    owned = Owned-move value phase t holding v.owned (ground arith);
    queued = record {
      waiting = λ u. ground (arith, v.queued.waiting u);
      distinct = v.queued.distinct;
      wakened = inr (inl (locked (ground arith)));
    };
    held = λ u h. ground (arith, alone (ap critical p) u);
    holder = λ h. ground arith;
    nobody = ground (arith, v.nobody);
  }

  pub leave-Inv : phase t ≡ holding → Inv (world value waiters null (update phase t leaving))
  leave-Inv p = record {
    owned = Owned-move value phase t leaving v.owned (ground arith);
    queued = record {
      waiting = λ u. ground (arith, v.queued.waiting u);
      distinct = v.queued.distinct;
      wakened = inr (inl (locked (ground arith)));
    };
    held = λ u h. ground (arith, alone (ap critical p) u);
    holder = λ h. absurd (h refl);
    nobody = ground (arith, v.nobody);
  }

  pub pass-Inv :
      phase t ≡ leaving → waiters ≡ [] → Inv (world (suc value) [] holder (update phase t outside))
  pass-Inv p e = record {
    owned = Owned-give value phase t v.owned (ap critical p);
    queued = record {
      waiting = λ u. ground (arith, v.queued.waiting u);
      distinct = tt;
      wakened = inl refl;
    };
    held = λ u h. ground (arith, v.held u);
    holder = λ h. ground (arith, v.holder);
    nobody = ground (arith, v.nobody);
  }

  pub wake-Inv :
      (x : Ptr) (xs : List Ptr)
      → phase t ≡ leaving
      → waiters ≡ x ∷ xs
      → Inv (world (suc value) xs holder (update (update phase t outside) x woken))
  wake-Inv x xs p e = record {
    owned =
        Owned-move (suc value) (update phase t outside) x woken
          (Owned-give value phase t v.owned (ap critical p)) (ground (arith, v.queued.waiting x));
    queued = record {
      waiting = λ u. ground (arith, v.queued.waiting u, v.queued.waiting x, v.queued.distinct);
      distinct = (subst Distinct e v.queued.distinct).1;
      wakened = inr (inr (x, ground arith));
    };
    held = λ u h. ground (arith, v.held u);
    holder = λ h. ground (arith, v.holder, v.queued.waiting x);
    nobody = ground (arith, v.nobody, v.queued.waiting x);
  }
