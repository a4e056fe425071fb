-- ===== src/Allocator/FreeList.antt =====
-- hw-memory/mm_alloc/mm_alloc.c: freeing a block anywhere in the heap.
use os_tools_and_features.Prelude.{
  false≢true, ℕ, ◌+◌, ◌≤◌, ◌<◌, ◌≡◌, refl, ap, sym, subst, ◌∙◌, List, [], ◌∷◌, some, Bool, true,
  false, ◌&&◌, ◌==◌, arith, ◌⊎◌, inl, inr, Bool-cases, ==_iff,
}
use os_tools_and_features.Allocator.{Ptr, null, header_size, block, Heap}
use os_tools_and_features.Allocator.Cells.{
  Returns, mono, Cell, flag, behind, first_addr, last_addr, Links, Layout,
}
use os_tools_and_features.Allocator.Free.{join_next, release, Same}
use os_tools_and_features.Allocator.Release.{
  freeing, Quiet, Released, free_here, EndOf, grown, free_pair,
}

-- A cell of the list has its header at `b`, and is given out.
abbrev pub InUse : Ptr → List Cell → Type 0
InUse b [] = ⊥
InUse b (c ∷ cs) = ((c.addr ≡ b) × (c.free ≡ false)) ⊎ InUse b cs

-- The cell at `b` is the last one, and the one in front of it is free.
unfoldable pub stale : Ptr → List Cell → Bool
stale b [] = false
stale b (c ∷ []) = false
stale b (c ∷ d ∷ []) = (d.addr == b) && c.free
stale b (c ∷ d ∷ e ∷ cs) = stale b (d ∷ e ∷ cs)

pub stale-cons :
    (b : Ptr) (c d : Cell) (cs : List Cell)
    → (d.addr == b && c.free) ≡ false
    → stale b (c ∷ d ∷ cs) ≡ stale b (d ∷ cs)
unfolding stale
stale-cons b c d [] e = e
stale-cons b c d (x ∷ cs) e = refl

-- A cell that is not above the first one is not a stale last one.
pub stale_above :
    (b a z : Ptr) (c : Cell) (cs : List Cell)
    → Layout a (c ∷ cs) z
    → b ≤ a
    → stale b (c ∷ cs) ≡ false
unfolding stale
stale_above b a z c [] l le = refl
stale_above b a z c (d ∷ []) l le = ground arith
stale_above b a z c (d ∷ e ∷ cs) l le = stale_above b (behind c) z d (e ∷ cs) l.1 (omega arith)

last_addr-join_next :
    (a s : ℕ) (cs : List Cell) (x : Ptr)
    → last_addr (join_next a s cs) x ≡ last_addr (join_next a s cs) null
last_addr-join_next a s [] x = refl
last_addr-join_next a s (d ∷ cs) x = ground arith

pub release-first :
    (b : Ptr) (c : Cell) (cs : List Cell) (x : Ptr) → first_addr (release b (c ∷ cs)) x ≡ c.addr
unfolding release
release-first b c [] x = ground arith
release-first b c (d ∷ []) x = ground arith
release-first b c (d ∷ e ∷ cs) x = ground arith

Layout-join_next :
    (a s z : ℕ) (cs : List Cell) → Layout (a + header_size + s) cs z → Layout a (join_next a s cs) z
Layout-join_next a s z [] l = (refl, l)
Layout-join_next a s z (d ∷ cs) l = elim (Bool-cases d.free) [
  | inl f ↦ simp f (refl, subst (λ x. Layout x cs z) (omega arith) l.1)
  | inr f ↦ simp f (refl, l)
]

pub release-Layout : (b a z : ℕ) (cs : List Cell) → Layout a cs z → Layout a (release b cs) z
unfolding release
release-Layout b a z [] l = l
release-Layout b a z (c ∷ []) l = ground arith
release-Layout b a z (c ∷ d ∷ cs) (e, l) = elim (Bool-cases (c.addr == b)) [
  | inl hit ↦ rw (hit, ← e) (Layout-join_next c.addr c.size z (d ∷ cs) l)
  | inr miss ↦ elim (Bool-cases (d.addr == b && c.free)) [
    | inl pair ↦
        rw (miss, pair, ← e)
          (Layout-join_next c.addr (c.size + header_size + d.size) z cs
            (subst (λ x. Layout x cs z) (omega arith) l.1))
    | inr rest ↦ rw (miss, rest) (e, release-Layout b (behind c) z (d ∷ cs) l)
  ]
]

-- What freeing the cell at `b` makes of the cells `cs` from `a` on.
pub record Outcome (h : Heap) (prev a b : Ptr) (cs : List Cell) (u : Unit {0}) (g : Heap)
    : Type 0 where
  pub links : Links g.node prev (release b cs) null
  pub end :
      (x y : Ptr) → stale b cs ≡ false → h.end ≡ last_addr cs x → g.end ≡ last_addr (release b cs) y
  pub kept : stale b cs ≡ true → g.end ≡ h.end
  pub same : Same h a g

Outcome-cons :
    (h g : Heap) (prev a b : Ptr) (c d : Cell) (cs : List Cell)
    → h.node c.addr ≡ some (block c.size (flag c.free) d.addr prev)
    → c.addr ≡ a
    → (c.addr == b) ≡ false
    → (d.addr == b && c.free) ≡ false
    → Outcome h c.addr (behind c) b (d ∷ cs) tt g
    → Outcome h prev a b (c ∷ d ∷ cs) tt g
unfolding release
Outcome-cons h g prev a b c d cs k at miss alone o = record {
  links =
      rw (miss, alone)
        (
          o.same.4 c.addr (omega arith)
              ∙ k
              ∙ ap (λ n. some (block c.size (flag c.free) n prev))
                  (sym (release-first b d cs null)),
          o.links,
        );
  end = λ x y s e. rw (miss, alone) (o.end c.addr c.addr (sym (stale-cons b c d cs alone) ∙ s) e);
  kept = λ s. o.kept (sym (stale-cons b c d cs alone) ∙ s);
  same = (o.same.0, o.same.1, o.same.2, o.same.3, λ q lt. o.same.4 q (omega arith));
}

Released-Outcome :
    (h g : Heap) (prev a b : Ptr) (c : Cell) (cs : List Cell)
    → c.addr ≡ a
    → (c.addr == b) ≡ true
    → stale b (c ∷ cs) ≡ false
    → release b (c ∷ cs) ≡ join_next c.addr c.size cs
    → Released h c.addr prev (c ∷ cs) (join_next c.addr c.size cs) tt g
    → Outcome h prev a b (c ∷ cs) tt g
Released-Outcome h g prev a b c cs at hit fresh e (ls, end, same) = record {
  links = rw e ls;
  end = λ x y s w. rw e (end x w ∙ sym (last_addr-join_next c.addr c.size cs y));
  kept = λ s. absurd (false≢true (sym fresh ∙ s));
  same = rw (← at) same;
}

pair-Outcome :
    (h g : Heap) (prev z a b : Ptr) (p c : Cell) (cs : List Cell) (free : p.free ≡ true)
    (pos : 0 < p.addr) (at : behind p ≡ c.addr)
    → p.addr ≡ a
    → (p.addr == b) ≡ false
    → (c.addr == b && p.free) ≡ true
    → Links g.node prev (join_next p.addr (grown h prev z p c free pos at) cs) null
    → EndOf h prev z p c free pos at cs c.addr g
    → Same h p.addr g
    → stale b (c ∷ cs) ≡ false
    → Outcome h prev a b (p ∷ c ∷ cs) tt g
unfolding release stale
pair-Outcome h g prev z a b p c [] free pos at e miss pair ls end same above = record {
  links = rw (miss, pair) ls;
  end = λ x y s w. absurd (false≢true (sym s ∙ pair));
  kept = λ s. end;
  same = rw (← e) same;
}
pair-Outcome h g prev z a b p c (x ∷ cs) free pos at e miss pair ls end same above = record {
  links = rw (miss, pair) ls;
  end = λ y y' s w. rw (miss, pair) (end w ∙ sym (last_addr-join_next p.addr _ (x ∷ cs) y'));
  kept = λ s. absurd (false≢true (sym above ∙ s));
  same = rw (← e) same;
}

release_here :
    (b : Ptr) (c : Cell) (cs : List Cell)
    → (c.addr == b) ≡ true
    → release b (c ∷ cs) ≡ join_next c.addr c.size cs
unfolding release
release_here b c [] e = rw e
release_here b c (d ∷ cs) e = rw e

InUse-tail :
    (b : Ptr) (c : Cell) (cs : List Cell) → InUse b (c ∷ cs) → (c.addr == b) ≡ false → InUse b cs
InUse-tail b c cs (inl (e, f)) miss = absurd (false≢true (sym miss ∙ (==_iff c.addr b).1 e))
InUse-tail b c cs (inr u) miss = u

freeing_first :
    (h : Heap) (prev a z b : Ptr) (c : Cell) (cs : List Cell)
    → 0 < a
    → prev < a
    → (c.addr == b) ≡ true
    → Quiet h prev
    → Layout a (c ∷ cs) z
    → Links h.node prev (c ∷ cs) null
    → Returns (Outcome h prev a b (c ∷ cs)) (freeing b h)
freeing_first h prev a z b c cs pos lt hit quiet l k =
    let at : c.addr ≡ b = (==_iff c.addr b).0 hit in
    subst (λ x. Returns (Outcome h prev a b (c ∷ cs)) (freeing x h)) at
      (mono (Released h c.addr prev (c ∷ cs) (join_next c.addr c.size cs)) _ _
        (free_here h prev z c cs (omega arith) (omega arith) quiet l.1 k)
        λ u g r.
          Released-Outcome h g prev a b c cs l.0 hit (stale_above b a z c cs l (omega arith))
            (release_here b c cs hit) r)

flag-used : (f : Bool) (d b : Ptr) → d ≡ b → (d == b && f) ≡ false → flag f ≡ 0
flag-used f d b e alone = ground arith

flag-free : (f : Bool) (d b : Ptr) → (d == b && f) ≡ true → (d ≡ b) × (f ≡ true)
flag-free f d b e = ground arith

freeing_pair :
    (h : Heap) (prev a z b : Ptr) (p c : Cell) (cs : List Cell)
    → 0 < a
    → (p.addr == b) ≡ false
    → (c.addr == b && p.free) ≡ true
    → Layout a (p ∷ c ∷ cs) z
    → Links h.node prev (p ∷ c ∷ cs) null
    → Returns (Outcome h prev a b (p ∷ c ∷ cs)) (freeing b h)
freeing_pair h prev a z b p c cs pos miss pair l k =
    let (at, free) = flag-free p.free c.addr b pair in
    let pos' : 0 < p.addr = omega arith in
    let joins : behind p ≡ c.addr = omega arith in
    subst (λ x. Returns (Outcome h prev a b (p ∷ c ∷ cs)) (freeing x h)) at
      (mono
        (λ u g.
          Links g.node prev (join_next p.addr (grown h prev z p c free pos' joins) cs) null
          × EndOf h prev z p c free pos' joins cs c.addr g
          × Same h p.addr g)
        _ _ (free_pair h prev z p c free pos' joins cs l.1.1 k)
        λ u g (ls, end, same).
          pair-Outcome h g prev z a b p c cs free pos' joins l.0 miss pair ls end same
            (stale_above b (behind p) z c cs l.1 (omega arith)))

-- The cell `c` stands in front of the one at `b`, or of others in front of it.
pub freeing-Outcome :
    (h : Heap) (cs : List Cell) (prev a z b : Ptr)
    → 0 < a
    → prev < a
    → (first_addr cs null ≡ b → Quiet h prev)
    → Layout a cs z
    → Links h.node prev cs null
    → InUse b cs
    → Returns (Outcome h prev a b cs) (freeing b h)
freeing-Outcome h [] prev a z b pos lt quiet l k u = absurd u
freeing-Outcome h (c ∷ []) prev a z b pos lt quiet l k (inr u) = absurd u
freeing-Outcome h (c ∷ []) prev a z b pos lt quiet l k (inl (e, f)) =
    freeing_first h prev a z b c [] pos lt ((==_iff c.addr b).1 e) (quiet e) l k
freeing-Outcome h (c ∷ d ∷ cs) prev a z b pos lt quiet l k u = elim (Bool-cases (c.addr == b)) [
  | inl hit ↦ freeing_first h prev a z b c (d ∷ cs) pos lt hit (quiet ((==_iff c.addr b).0 hit)) l k
  | inr miss ↦ elim (Bool-cases (d.addr == b && c.free)) [
    | inl pair ↦ freeing_pair h prev a z b c d cs pos miss pair l k
    | inr alone ↦
        mono (Outcome h c.addr (behind c) b (d ∷ cs)) _ _
          (freeing-Outcome h (d ∷ cs) c.addr (behind c) z b (omega arith) (omega arith)
            (λ e. inr (_, k.0, flag-used c.free d.addr b e alone)) l.1 k.1
            (InUse-tail b c (d ∷ cs) u miss))
          λ u g o. Outcome-cons h g prev a b c d cs k.0 l.0 miss alone o
  ]
]
