-- ===== src/Allocator/Release.antt =====
-- hw-memory/mm_alloc/mm_alloc.c: mm_free() of any block of the heap releases its cell.
use os_tools_and_features.Prelude.{
  ℕ, ◌+◌, ◌≤◌, ◌<◌, ◌≡◌, ap, subst, ◌∙◌, List, [], ◌∷◌, some, Bool, true, arith, ◌⊎◌, inl, inr,
}
use os_tools_and_features.Allocator.{
  Ptr, null, header_size, Block, block, Heap, Cmd, ok, ◌>>=◌, ◌>>◌, update, modify, set_free,
  merge_prev, merge_next,
}
use os_tools_and_features.Allocator.Cells.{
  Returns, bind, mono, Cell, flag, behind, first_addr, last_addr, Links, Layout, Links-frame,
}
use os_tools_and_features.Allocator.Search.{load-ok}
use os_tools_and_features.Allocator.Free.{
  join_next, Same, EndIf, Joined, Front, merge_next-Joined, merge_prev_last, merge_prev_mid,
  merge_prev_none,
}

-- mm_free() from the header on.
abbrev pub freeing : Ptr → Cmd (Unit {0})
freeing b = do set_free b 1; b' ← merge_prev b; merge_next b'

abbrev marked : Heap → Ptr → Block → Heap
marked h b c = record h { node = update h.node b (some (record c { free = 1 })) }

set_free-ok :
    (h : Heap) (b : Ptr) (c : Block) → h.node b ≡ some c → set_free b 1 h ≡ ok tt (marked h b c)
unfolding modify
set_free-ok h b c e = rw (load-ok h b c e)

-- The block in front is none, or in use.
abbrev pub Quiet : Heap → Ptr → Type 0
Quiet h p = (p ≡ null) ⊎ ((c : Block) × (h.node p ≡ some c) × (c.free ≡ 0))

abbrev pub Released : Heap → Ptr → Ptr → List Cell → List Cell → Unit {0} → Heap → Type 0
Released h a prev cs cs' u g =
    Links g.node prev cs' null
    × ((d : Ptr) → h.end ≡ last_addr cs d → g.end ≡ last_addr cs' null)
    × Same h a g

Quiet-marked : (h : Heap) (p b : Ptr) (c : Block) → p < b → Quiet h p → Quiet (marked h b c) p
Quiet-marked h p b c lt (inl e) = inl e
Quiet-marked h p b c lt (inr (d, k, f)) = inr (d, ground arith, f)

marked-above : (h : Heap) (b q : Ptr) (c : Block) → b < q → (marked h b c).node q ≡ h.node q
marked-above h b q c lt = ground arith

marked-below : (h : Heap) (b q : Ptr) (c : Block) → q < b → (marked h b c).node q ≡ h.node q
marked-below h b q c lt = ground arith

marked_self :
    (h : Heap) (b : Ptr) (c : Block) → (marked h b c).node b ≡ some (record c { free = 1 })
marked_self h b c = ground arith

flag-true : (f : Bool) → f ≡ true → flag f ≡ 1
flag-true f e = rw e

Same-marked : (h g : Heap) (a b : Ptr) (c : Block) → a ≤ b → Same (marked h b c) a g → Same h a g
Same-marked h g a b c le same =
    (same.0, same.1, same.2, same.3, λ q lt. same.4 q lt ∙ marked-below h b q c (omega arith))

pub free_here :
    (h : Heap) (prev z : Ptr) (c : Cell) (cs : List Cell)
    → 0 < c.addr
    → prev < c.addr
    → Quiet h prev
    → Layout (behind c) cs z
    → Links h.node prev (c ∷ cs) null
    → Returns (Released h c.addr prev (c ∷ cs) (join_next c.addr c.size cs)) (freeing c.addr h)
free_here h prev z c cs pos lt quiet l (k, ks) =
    let b = c.addr in
    let n = first_addr cs null in
    let old = block c.size (flag c.free) n prev in
    let h1 = marked h b old in
    let e1 : h1.node b ≡ some (block c.size 1 n prev) = ground arith in
    rw
      (
        set_free-ok h b _ k,
        merge_prev_none h1 b c.size prev z pos n e1 (Quiet-marked h prev b old lt quiet),
      )
      (mono (Joined h1 b c.size prev z pos cs) _ _
        (merge_next-Joined h1 b c.size prev z pos cs e1 l
          (Links-frame cs (behind c) z b null l ks (λ q lo hi. ground arith)))
        λ u g (ls, end, _, same). (ls, λ d w. end w, Same-marked h g b b old (omega arith) same))

-- The cell in front is free.
module _ (h : Heap) (prev z : Ptr) (p c : Cell) (free : p.free ≡ true) (pos : 0 < p.addr)
    (at : behind p ≡ c.addr) where
  abbrev pub grown : ℕ
  grown = p.size + header_size + c.size

  -- After the first merge the grown block stands for both.
  abbrev Merged : List Cell → Ptr → Heap → Type 0
  Merged cs r g =
      (r ≡ p.addr)
      × (g.node p.addr ≡ some (block grown 1 (first_addr cs null) prev))
      × Links g.node p.addr cs null
      × (g.end ≡ h.end)
      × Same h p.addr g

  merge_prev-Merged :
      (cs : List Cell)
      → Layout (behind c) cs z
      → Links h.node prev (p ∷ c ∷ cs) null
      → Returns (Merged cs) (
          merge_prev c.addr
            (marked h c.addr (block c.size (flag c.free) (first_addr cs null) p.addr)))
  merge_prev-Merged [] l (kp, (k, ks)) =
      let old = block c.size (flag c.free) null p.addr in
      let h1 = marked h c.addr old in
      mono (Front h1 c.addr c.size prev z (omega arith) p.addr p.size prev null) _ _
        (merge_prev_last h1 c.addr c.size prev z (omega arith) p.addr p.size prev pos at
          (ground arith) (ground arith))
        λ r g (v, e, end, same).
          (v, e, tt, end, Same-marked h g p.addr c.addr old (omega arith) same)
  merge_prev-Merged (d ∷ cs) (ld, l) (kp, (k, (kd, ks))) =
      let old = block c.size (flag c.free) d.addr p.addr in
      let h1 = marked h c.addr old in
      mono
        (λ r g.
          Front h1 c.addr c.size prev z (omega arith) p.addr p.size prev (behind c) r g
          × (g.node (behind c) ≡ some (block d.size (flag d.free) (first_addr cs null) p.addr))
          × ((q : Ptr) → behind c < q → g.node q ≡ h1.node q))
        _ _
        (merge_prev_mid h1 c.addr c.size prev z (omega arith) p.addr p.size prev
          (block d.size (flag d.free) (first_addr cs null) c.addr) pos at
          (marked-below h c.addr p.addr old (omega arith)
            ∙ kp
            ∙ ap (λ f. some (block p.size f c.addr prev)) (flag-true p.free free))
          (marked_self h c.addr old ∙ ap (λ n. some (block c.size 1 n p.addr)) ld)
          (marked-above h c.addr (behind c) old (omega arith) ∙ rw (← ld) kd))
        λ r g ((v, e, end, same), m, above). (
          v,
          rw ld e,
          (
            rw ld m,
            Links-frame cs (behind d) z d.addr null l ks
                (λ q lo hi. above q (omega arith) ∙ marked-above h c.addr q old (omega arith)),
          ),
          end,
          Same-marked h g p.addr c.addr old (omega arith) same,
        )

  abbrev pub EndOf : List Cell → Ptr → Heap → Type 0
  EndOf [] d g = g.end ≡ h.end
  EndOf (x ∷ cs) d g =
      h.end ≡ last_addr (x ∷ cs) d → g.end ≡ last_addr (join_next p.addr grown (x ∷ cs)) null

  -- Without a cell behind the freed one `end` stays where it was, inside the joined block.
  pub free_pair :
      (cs : List Cell)
      → Layout (behind c) cs z
      → Links h.node prev (p ∷ c ∷ cs) null
      → Returns
          (λ u g.
            Links g.node prev (join_next p.addr grown cs) null
            × EndOf cs c.addr g
            × Same h p.addr g)
          (freeing c.addr h)
  free_pair cs l (kp, (k, ks)) = rw (set_free-ok h c.addr _ k) (
      bind (Merged cs) _ (merge_prev c.addr (marked h c.addr old)) merge_next
        (merge_prev-Merged cs l (kp, (k, ks)))
        λ r g1 (v, e, ls, end, same). rw v (
          mono (Joined g1 p.addr grown prev z pos cs) _ _
            (merge_next-Joined g1 p.addr grown prev z pos cs e (subst (λ a. Layout a cs z) joined l)
              ls)
            λ u g (ls', moved, kept, same'). (
              ls',
              go cs g1 g end moved kept,
              (
                same'.0 ∙ same.0,
                same'.1 ∙ same.1,
                same'.2 ∙ same.2,
                same'.3 ∙ same.3,
                λ q lt. same'.4 q lt ∙ same.4 q lt,
              ),
            )))
    where
      old : Block
      old = block c.size (flag c.free) (first_addr cs null) p.addr

      joined : behind c ≡ p.addr + header_size + grown
      joined = omega arith

      go :
          (cs : List Cell) (g1 g : Heap)
          → g1.end ≡ h.end
          → (g1.end ≡ last_addr cs p.addr → g.end ≡ last_addr (join_next p.addr grown cs) null)
          → EndIf cs g1 g
          → EndOf cs c.addr g
      go [] g1 g e moved kept = kept ∙ e
      go (x ∷ cs) g1 g e moved kept = λ w. moved (e ∙ w)
