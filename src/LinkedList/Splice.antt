-- ===== src/LinkedList/Splice.antt =====
-- proj-pregame/src/lib/kernel/list.c: taking elements out of a chain, and putting elements into one.
use os_tools_and_features.Prelude.{◌≡◌, refl, List, [], ◌∷◌, ◌++◌, true, false, ◌==◌, arith}
use os_tools_and_features.Threads.{Ptr, null, update}
use os_tools_and_features.Threads.Invariant.{has, Distinct}
use os_tools_and_features.LinkedList.{Memory, ok, link, unlink}
use os_tools_and_features.LinkedList.Chain.{
  Linked, Chain, last_of, Linked-left, Linked-right, Linked-join, Linked-snoc, Linked-frame,
  has-last_of, has-init, init-last_of, has-rest, has-parts, Linked-frame_front, Linked-frame_back,
  Chain-Parts, Distinct-Apart, Apart-Distinct,
}

-- Where unlink() and link() end.
abbrev pub unlinked : Ptr → Ptr → Memory → Memory
unlinked p n m = record { prev = update m.prev n p; next = update m.next p n }

abbrev pub linked : Ptr → Ptr → Ptr → Ptr → Memory → Memory
linked p before first last m = record {
  prev = update (update m.prev first p) before last;
  next = update (update m.next last before) p first;
}

module _ (m : Memory) where
  pub unlink-ok :
      (p n first last : Ptr)
      → m.prev first ≡ p
      → m.next last ≡ n
      → (first == null) ≡ false
      → (last == null) ≡ false
      → (p == null) ≡ false
      → (n == null) ≡ false
      → (p == last) ≡ false
      → unlink first last m ≡ ok tt (unlinked p n m)
  unfolding unlink
  unlink-ok p n first last e f a b c d h = rw (a, b, e, f, c) (rw (b, h, f, a, e, d) refl)

  pub link-ok :
      (p before first last : Ptr)
      → m.prev before ≡ p
      → (before == null) ≡ false
      → (first == null) ≡ false
      → (last == null) ≡ false
      → (p == null) ≡ false
      → (first == before) ≡ false
      → link before first last m ≡ ok tt (linked p before first last m)
  unfolding link
  link-ok p before first last e a b c d h = rw (a, b, c) (rw (a, h, e, d) (rw a refl))

module _ (m : Memory) (ps : List Ptr) (p f : Ptr) (fs : List Ptr) (q : Ptr) (qs : List Ptr) where
  -- unlink() takes a range out: the elements around it are linked, and those of the range still are.
  pub unlink-Chain :
      Chain m (ps ++ (p ∷ f ∷ (fs ++ (q ∷ qs))))
      → (unlink f (last_of f fs) m ≡ ok tt (unlinked p q m))
        × Chain (unlinked p q m) (ps ++ (p ∷ q ∷ qs))
        × Linked (unlinked p q m) (f ∷ fs)
  unlink-Chain c =
      let s = Chain-Parts m ps p f fs q qs c.linked in
      let a = Distinct-Apart ps p (f ∷ fs) q qs c.distinct in
      let g = unlinked p q m in
      let z = has-parts null ps p (f ∷ fs) q qs in
      (
        unlink-ok m p q f (last_of f fs) s.prev_f s.next_last (ground arith)
            (ground (arith, has-last_of f fs)) (ground arith) (ground arith)
            (ground (arith, a.p_fs, has-last_of f fs)),
        record {
          linked =
              Linked-join g ps p (q ∷ qs)
                (Linked-frame_front m g ps p s.front (λ x h. ground (arith, a.p_ps))
                  (λ x h. ground (arith, a.q_ps)) (ground (arith, a.p_qs)))
                (
                  ground arith,
                  ground arith,
                  Linked-frame_back m g q qs s.back (λ x h. ground (arith, a.p_qs))
                      (λ x h. ground (arith, a.q_qs)),
                );
          distinct = Apart-Distinct ps p [] q qs (record {
            distinct_ps = a.distinct_ps;
            distinct_fs = tt;
            distinct_qs = a.distinct_qs;
            p_ps = a.p_ps;
            q_qs = a.q_qs;
            p_fs = refl;
            q_fs = refl;
            p_qs = a.p_qs;
            q_ps = a.q_ps;
            ps_fs = λ x h. refl;
            ps_qs = a.ps_qs;
            fs_qs = λ x h. cc;
          });
          nonnull = ground (arith, has-parts null ps p [] q qs);
        },
        Linked-frame m g (f ∷ fs) s.middle (λ x h. ground (arith, a.p_fs, has-init x (f ∷ fs)))
            (λ x h. ground (arith, a.q_fs, has-rest x (f ∷ fs))),
      )

  -- link() puts a range, whose elements are linked, between two neighbours.
  pub link-Chain :
      Chain m (ps ++ (p ∷ q ∷ qs))
      → Linked m (f ∷ fs)
      → Distinct (f ∷ fs)
      → ((x : Ptr) → has x (f ∷ fs) ≡ true → has x (ps ++ (p ∷ q ∷ qs)) ≡ false)
      → has null (f ∷ fs) ≡ false
      → (link q f (last_of f fs) m ≡ ok tt (linked p q f (last_of f fs) m))
        × Chain (linked p q f (last_of f fs) m) (ps ++ (p ∷ f ∷ (fs ++ (q ∷ qs))))
  link-Chain c l d out n =
      let a = Distinct-Apart ps p [] q qs c.distinct in
      let g = linked p q f (last_of f fs) m in
      let r = Linked-right m ps p (q ∷ qs) c.linked in
      let z = has-parts null ps p [] q qs in
      let o = λ (x : Ptr). has-parts x ps p [] q qs in
      (
        link-ok m p q f (last_of f fs) r.1 (ground arith) (ground arith)
            (ground (arith, has-last_of f fs)) (ground arith) (ground (arith, out f, o f)),
        record {
          linked =
              Linked-join g ps p (f ∷ (fs ++ (q ∷ qs)))
                (Linked-frame_front m g ps p (Linked-left m ps p (q ∷ qs) c.linked)
                  (λ x h. ground (
                    arith,
                    a.p_ps,
                    out x,
                    o x,
                    out (last_of f fs),
                    o (last_of f fs),
                    has-last_of f fs,
                  ))
                  (λ x h. ground (arith, a.q_ps, out f, o f)) (ground (arith, a.p_qs, out f, o f)))
                (
                  ground arith,
                  ground (arith, out f, o f),
                  Linked-join g (f ∷ fs) q qs
                      (Linked-snoc g f fs q
                        (Linked-frame m g (f ∷ fs) l
                          (λ x h.
                            ground
                              (arith, init-last_of x f fs d h, out x, o x, has-init x (f ∷ fs) h))
                          (λ x h. ground (arith, out x, o x, d)))
                        (ground (arith, out (last_of f fs), o (last_of f fs), has-last_of f fs))
                        (ground arith))
                      (Linked-frame_back m g q qs r.2
                        (λ x h.
                          ground
                            (arith, a.p_qs, out (last_of f fs), o (last_of f fs), has-last_of f fs))
                        (λ x h. ground (arith, a.q_qs, out f, o f))),
                );
          distinct = Apart-Distinct ps p (f ∷ fs) q qs (record {
            distinct_ps = a.distinct_ps;
            distinct_fs = d;
            distinct_qs = a.distinct_qs;
            p_ps = a.p_ps;
            q_qs = a.q_qs;
            p_fs = ground (arith, out p, o p);
            q_fs = ground (arith, out q, o q);
            p_qs = a.p_qs;
            q_ps = a.q_ps;
            ps_fs = λ x h. ground (arith, out x, o x);
            ps_qs = a.ps_qs;
            fs_qs = λ x h. ground (arith, out x, o x);
          });
          nonnull = ground (arith, has-parts null ps p (f ∷ fs) q qs);
        },
      )
