-- ===== src/Allocator/Place.antt =====
-- hw-memory/mm_alloc/mm_alloc.c: taking a block that fits, whole or split.
use os_tools_and_features.Prelude.{
  le→leb, leb→le, ℕ_discrete, Bool-cases, ◌∙◌, ℕ, ◌+◌, ◌-◌, ◌≤◌, ◌<◌, ◌≡◌, refl, List, [], ◌∷◌,
  ◌++◌, some, true, false, leb, if◌then◌else◌, arith, ◌⊎◌, inl, inr,
}
use os_tools_and_features.Allocator.{
  Ptr, null, header_size, Block, block, Heap, Cmd, split, take_whole, load, modify, memset,
}
use os_tools_and_features.Allocator.Cells.{
  Returns, mono, Cell, cell, flag, behind, first_addr, last_addr, Links, Layout, Links-frame, carve,
}

-- What taking the block at `b` with `s` bytes changes: headers and bytes inside it, and at the
-- block behind it the pointer back. The payload is zero.
record Taken (h : Heap) (b : Ptr) (size s : ℕ) (g : Heap) : Type 0 where
  globals : (g.first ≡ h.first) × (g.base ≡ h.base) × (g.break ≡ h.break)
  zeroed : (q : Ptr) → b + header_size ≤ q → q < b + header_size + size → g.byte q ≡ 0
  bytes : (q : Ptr) → (q < b) ⊎ (b + header_size + s ≤ q) → g.byte q ≡ h.byte q
  below : (q : Ptr) → q < b → g.node q ≡ h.node q
  above : (q : Ptr) → b + header_size + s < q → g.node q ≡ h.node q

module _ (h : Heap) (b size s p : ℕ) where
  abbrev CutLast : Ptr → Heap → Type 0
  CutLast r g =
      (r ≡ b + header_size)
      × (g.node b ≡ some (block size 0 (b + header_size + size) p))
      × (g.node (b + header_size + size) ≡ some (block (s - header_size - size) 1 null b))
      × (g.end ≡ b + header_size + size)
      × Taken h b size s g

  abbrev CutMid : Block → Ptr → Heap → Type 0
  CutMid d r g =
      (r ≡ b + header_size)
      × (g.node b ≡ some (block size 0 (b + header_size + size) p))
      × (g.node (b + header_size + size)
          ≡ some (block (s - header_size - size) 1 (b + header_size + s) b))
      × (g.node (b + header_size + s) ≡ some (record d { prev = b + header_size + size }))
      × (g.end ≡ h.end)
      × Taken h b size s g

  abbrev Whole : Ptr → Ptr → Heap → Type 0
  Whole n r g =
      (r ≡ b + header_size)
      × (g.node b ≡ some (block s 0 n p))
      × (g.end ≡ h.end)
      × (g.node (b + header_size + s) ≡ h.node (b + header_size + s))
      × Taken h b size s g

  split_last :
      size + header_size ≤ s
      → h.node b ≡ some (block s 1 null p)
      → Returns CutLast (split size b (block s 1 null p) h)
  unfolding split modify load memset
  split_last fit e = ground arith

  split_mid :
      (d : Block)
      → size + header_size ≤ s
      → h.node b ≡ some (block s 1 (b + header_size + s) p)
      → h.node (b + header_size + s) ≡ some d
      → Returns (CutMid d) (split size b (block s 1 (b + header_size + s) p) h)
  unfolding split modify load memset
  split_mid d fit e k = ground arith

  whole :
      (n : Ptr)
      → size ≤ s
      → h.node b ≡ some (block s 1 n p)
      → Returns (Whole n) (take_whole b (block s 1 n p) h)
  unfolding take_whole modify load memset
  whole n fit e = ground arith

-- The list `cs` of blocks from `a` to `z`, behind the block at `prev`, has become `cs'`, and the
-- cell `c` of it was given out for `size` bytes.
pub record Found (h : Heap) (size : ℕ) (prev a z : Ptr) (cs : List Cell) (c : Cell)
    (cs' : List Cell) (g : Heap) : Type 0 where
  pub links : Links g.node prev cs' null
  pub layout : Layout a cs' z
  pub end : (d : Ptr) → h.end ≡ last_addr cs d → g.end ≡ last_addr cs' d
  pub globals : (g.first ≡ h.first) × (g.base ≡ h.base) × (g.break ≡ h.break)
  pub zeroed : (q : Ptr) → c.addr + header_size ≤ q → q < c.addr + header_size + size → g.byte q ≡ 0
  pub bytes : (q : Ptr) → (q < c.addr) ⊎ (behind c ≤ q) → g.byte q ≡ h.byte q
  pub below : (q : Ptr) → q < a → g.node q ≡ h.node q

module _ (h : Heap) (size b s prev z : ℕ) where
  abbrev pub Taking : List Cell → Ptr → Heap → Type 0
  Taking cs r g =
      (r ≡ b + header_size)
      × Found h size prev b z (cell b s true ∷ cs) (cell b s true)
          (carve size (cell b s true) ++ cs) g

  cut_last :
      size + header_size ≤ s
      → h.node b ≡ some (block s 1 null prev)
      → b + header_size + s ≡ z
      → Returns (Taking []) (split size b (block s 1 null prev) h)
  unfolding carve
  cut_last room e l =
      mono (CutLast h b size s prev) _ _ (split_last h b size s prev room e) λ r g (v, x, y, w, t).
        (
          v,
          record {
            links = ground arith;
            layout = ground arith;
            end = ground arith;
            globals = t.globals;
            zeroed = t.zeroed;
            bytes = t.bytes;
            below = t.below;
          },
        )

  cut_mid :
      (c : Cell) (cs : List Cell)
      → size + header_size ≤ s
      → h.node b ≡ some (block s 1 c.addr prev)
      → Layout (b + header_size + s) (c ∷ cs) z
      → Links h.node b (c ∷ cs) null
      → Returns (Taking (c ∷ cs)) (split size b (block s 1 c.addr prev) h)
  unfolding carve
  cut_mid c cs room e (l, ls) (k, ks) =
      let e' : h.node b ≡ some (block s 1 (b + header_size + s) prev) = rw (← l) e in
      let k' : h.node (b + header_size + s)
          ≡ some (block c.size (flag c.free) (first_addr cs null) b) =
        rw (← l) k in
      rw l (
        mono (CutMid h b size s prev (block c.size (flag c.free) (first_addr cs null) b)) _ _
          (split_mid h b size s prev _ room e' k')
          λ r g (v, x, y, y', w, t). (
            v,
            record {
              links = rw (le→leb header_size (s - size) (omega arith)) (
                x,
                (
                  y,
                  (
                    y',
                    rw (← l) (
                        Links-frame cs (behind c) z c.addr null ls ks
                          λ q lo hi. t.above q (omega arith)),
                  ),
                ),
              );
              layout = ground arith;
              end = ground arith;
              globals = t.globals;
              zeroed = t.zeroed;
              bytes = t.bytes;
              below = t.below;
            },
          ))

  took_whole :
      (cs : List Cell)
      → size ≤ s
      → leb header_size (s - size) ≡ false
      → h.node b ≡ some (block s 1 (first_addr cs null) prev)
      → Layout (b + header_size + s) cs z
      → Links h.node b cs null
      → Returns (Taking cs) (take_whole b (block s 1 (first_addr cs null) prev) h)
  unfolding carve
  took_whole cs fit small e l k =
      mono (Whole h b size s prev (first_addr cs null)) _ _ (whole h b size s prev _ fit e)
        λ r g (v, x, w, y, t). (
          v,
          record {
            links = rw small (
              x,
              Links-frame cs (b + header_size + s) z b null l k λ q lo hi.
                  elim (ℕ_discrete q (b + header_size + s)) [
                    | yes same ↦ rw same y
                    | no other ↦ t.above q (omega arith)
                  ],
            );
            layout = rw small (refl, l);
            end = rw small (λ d e. w ∙ e);
            globals = t.globals;
            zeroed = t.zeroed;
            bytes = t.bytes;
            below = t.below;
          },
        )

  abbrev pub take : List Cell → Cmd Ptr
  take cs =
      if leb header_size (s - size)
      then split size b (block s 1 (first_addr cs null) prev)
      else take_whole b (block s 1 (first_addr cs null) prev)

  pub take-Taking :
      (cs : List Cell)
      → size ≤ s
      → h.node b ≡ some (block s 1 (first_addr cs null) prev)
      → Layout (b + header_size + s) cs z
      → Links h.node b cs null
      → Returns (Taking cs) (take cs h)
  take-Taking cs fit e l k = elim (Bool-cases (leb header_size (s - size))) [
    | inl room ↦ rw room (cut cs (leb→le _ _ room) e l k)
    | inr small ↦ rw small (took_whole cs fit small e l k)
  ]
    where
      cut :
          (cs : List Cell)
          → header_size ≤ s - size
          → h.node b ≡ some (block s 1 (first_addr cs null) prev)
          → Layout (b + header_size + s) cs z
          → Links h.node b cs null
          → Returns (Taking cs) (split size b (block s 1 (first_addr cs null) prev) h)
      cut [] room e l k = cut_last (omega arith) e l
      cut (c ∷ cs) room e l k = cut_mid c cs (omega arith) e l k
