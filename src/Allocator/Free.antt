-- ===== src/Allocator/Free.antt =====
-- hw-memory/mm_alloc/mm_alloc.c: mm_free() on the list of cells, with its two merges.
use os_tools_and_features.Prelude.{
  ℕ, ◌+◌, ◌<◌, ◌≡◌, ◌∙◌, List, [], ◌∷◌, some, true, false, ◌&&◌, ◌==◌, if◌then◌else◌, arith, ◌⊎◌,
  inl, inr, Bool-cases,
}
use os_tools_and_features.Allocator.{
  Ptr, null, header_size, Block, block, Heap, ok, modify, load, is_free, merge_prev, merge_next,
}
use os_tools_and_features.Allocator.Cells.{
  Returns, mono, Cell, cell, flag, behind, first_addr, last_addr, Links, Layout, Links-frame,
}

-- A free cell in front of `cs`, which takes in the first of them if that is free.
abbrev pub join_next : Ptr → ℕ → List Cell → List Cell
join_next a s [] = cell a s true ∷ []
join_next a s (d ∷ cs) =
    if d.free then cell a (s + header_size + d.size) true ∷ cs else cell a s true ∷ d ∷ cs

-- The cell at `b` becomes free, and one with a free cell in front and with one behind.
unfoldable pub release : Ptr → List Cell → List Cell
release b [] = []
release b (c ∷ []) = if c.addr == b then join_next c.addr c.size [] else c ∷ []
release b (c ∷ d ∷ cs) =
    if c.addr == b
    then join_next c.addr c.size (d ∷ cs)
    else if d.addr == b && c.free
    then join_next c.addr (c.size + header_size + d.size) cs
    else c ∷ release b (d ∷ cs)

-- Everything but the headers is as it was; of these, those below `a` too.
abbrev pub Same : Heap → Ptr → Heap → Type 0
Same h a g =
    (g.first ≡ h.first)
    × (g.base ≡ h.base)
    × (g.break ≡ h.break)
    × (g.byte ≡ h.byte)
    × ((q : Ptr) → q < a → g.node q ≡ h.node q)

-- With no cell behind, mm_free() does not touch `end`.
abbrev pub EndIf : List Cell → Heap → Heap → Type 0
EndIf [] h g = g.end ≡ h.end
EndIf (c ∷ cs) h g = Unit

module _ (h : Heap) (b s prev z : ℕ) (pos : 0 < b) where
  abbrev pub Joined : List Cell → Unit {0} → Heap → Type 0
  Joined cs u g =
      Links g.node prev (join_next b s cs) null
      × (h.end ≡ last_addr cs b → g.end ≡ last_addr (join_next b s cs) null)
      × EndIf cs h g
      × Same h b g

  merge_next_nil : h.node b ≡ some (block s 1 null prev) → Returns (Joined []) (merge_next b h)
  unfolding merge_next modify is_free load
  merge_next_nil e = ground arith

  merge_next_used :
      (d : Cell) (cs : List Cell)
      → d.free ≡ false
      → h.node b ≡ some (block s 1 d.addr prev)
      → Layout (b + header_size + s) (d ∷ cs) z
      → Links h.node b (d ∷ cs) null
      → Returns (Joined (d ∷ cs)) (merge_next b h)
  unfolding merge_next modify is_free load
  merge_next_used d cs f e l k = ground arith

  merge_next_last :
      (d : Cell)
      → d.free ≡ true
      → h.node b ≡ some (block s 1 d.addr prev)
      → Layout (b + header_size + s) (d ∷ []) z
      → Links h.node b (d ∷ []) null
      → Returns (Joined (d ∷ [])) (merge_next b h)
  unfolding merge_next modify is_free load
  merge_next_last d f e l k = ground arith

  -- The block behind `b` is free, with `t` bytes, and `c` is the one behind that.
  abbrev Linked : ℕ → Block → Unit {0} → Heap → Type 0
  Linked t c u g =
      (g.node b ≡ some (block (s + header_size + t) 1 (b + header_size + s + header_size + t) prev))
      × (g.node (b + header_size + s + header_size + t) ≡ some (record c { prev = b }))
      × (g.end ≡ h.end)
      × Same h b g
      × ((q : Ptr) → b + header_size + s + header_size + t < q → g.node q ≡ h.node q)

  merge_next_free :
      (t : ℕ) (c : Block)
      → h.node b ≡ some (block s 1 (b + header_size + s) prev)
      → h.node (b + header_size + s) ≡ some (block t 1 (b + header_size + s + header_size + t) b)
      → h.node (b + header_size + s + header_size + t) ≡ some c
      → Returns (Linked t c) (merge_next b h)
  unfolding merge_next modify is_free load
  merge_next_free t c e k m = ground arith

  pub merge_next-Joined :
      (cs : List Cell)
      → h.node b ≡ some (block s 1 (first_addr cs null) prev)
      → Layout (b + header_size + s) cs z
      → Links h.node b cs null
      → Returns (Joined cs) (merge_next b h)
  merge_next-Joined [] e l k = merge_next_nil e
  merge_next-Joined (d ∷ cs) e l k = elim (Bool-cases d.free) [
    | inl f ↦ go cs f e l k
    | inr f ↦ merge_next_used d cs f e l k
  ]
    where
      go :
          (cs : List Cell)
          → d.free ≡ true
          → h.node b ≡ some (block s 1 d.addr prev)
          → Layout (b + header_size + s) (d ∷ cs) z
          → Links h.node b (d ∷ cs) null
          → Returns (Joined (d ∷ cs)) (merge_next b h)
      go [] f e l k = merge_next_last d f e l k
      go (x ∷ cs) f e l k =
          let at_d : d.addr ≡ b + header_size + s = l.0 in
          let at_x : x.addr ≡ b + header_size + s + header_size + d.size = omega arith in
          mono (Linked d.size (block x.size (flag x.free) (first_addr cs null) d.addr)) _ _
            (merge_next_free d.size (block x.size (flag x.free) (first_addr cs null) d.addr)
              (ground arith) (ground arith) (ground arith))
            λ u g (e', k', end, same, above). (
              simp f (
                ground arith,
                (
                  ground arith,
                  Links-frame cs (behind x) z x.addr null l.1.1 k.1.1
                      (λ q lo hi. above q (omega arith)),
                ),
              ),
              simp f (λ w. end ∙ w),
              tt,
              same,
            )

  -- The block in front, at `p`, is free, with `t` bytes.
  abbrev pub Front : (p t pp n : Ptr) → Ptr → Heap → Type 0
  Front p t pp n r g =
      (r ≡ p)
      × (g.node p ≡ some (block (t + header_size + s) 1 n pp))
      × (g.end ≡ h.end)
      × Same h p g

  pub merge_prev_last :
      (p t pp : Ptr)
      → 0 < p
      → p + header_size + t ≡ b
      → h.node p ≡ some (block t 1 b pp)
      → h.node b ≡ some (block s 1 null p)
      → Returns (Front p t pp null) (merge_prev b h)
  unfolding merge_prev modify is_free load
  merge_prev_last p t pp pos' at e k = ground arith

  pub merge_prev_mid :
      (p t pp : Ptr) (c : Block)
      → 0 < p
      → p + header_size + t ≡ b
      → h.node p ≡ some (block t 1 b pp)
      → h.node b ≡ some (block s 1 (b + header_size + s) p)
      → h.node (b + header_size + s) ≡ some c
      → Returns
          (λ r g.
            Front p t pp (b + header_size + s) r g
            × (g.node (b + header_size + s) ≡ some (record c { prev = p }))
            × ((q : Ptr) → b + header_size + s < q → g.node q ≡ h.node q))
          (merge_prev b h)
  unfolding merge_prev modify is_free load
  merge_prev_mid p t pp c pos' at e k m = ground arith

  pub merge_prev_none :
      (n : Ptr)
      → h.node b ≡ some (block s 1 n prev)
      → (prev ≡ null) ⊎ ((c : Block) × (h.node prev ≡ some c) × (c.free ≡ 0))
      → merge_prev b h ≡ ok b h
  unfolding merge_prev modify is_free load
  merge_prev_none n e (inl nil) = ground arith
  merge_prev_none n e (inr (c, k, f)) = ground arith
