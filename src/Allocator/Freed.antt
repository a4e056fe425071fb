-- ===== src/Allocator/Freed.antt =====
-- hw-memory/mm_alloc/mm_alloc.c: mm_free(), and the `end` that it leaves behind.
use os_tools_and_features.Prelude.{
  false≢true, ◌+◌, ◌-◌, ◌<◌, ◌≡◌, refl, sym, ◌∙◌, List, [], ◌∷◌, true, false, ◌&&◌, ◌==◌, arith,
  inl, inr, Bool-cases,
}
use os_tools_and_features.Allocator.{Ptr, null, header_size, Heap, mm_free}
use os_tools_and_features.Allocator.Cells.{
  Returns, mono, Cell, behind, last_addr, Links, Layout, Rep,
}
use os_tools_and_features.Allocator.Free.{release}
use os_tools_and_features.Allocator.Release.{freeing}
use os_tools_and_features.Allocator.FreeList.{
  InUse, stale, stale_above, release-first, release-Layout, Outcome, freeing-Outcome,
}

mm_free-freeing : (b : Ptr) (h : Heap) → mm_free (b + header_size) h ≡ freeing b h
unfolding mm_free
mm_free-freeing b h =
    let ne : (b + header_size == null) ≡ false = ground arith in
    let back : b + header_size - header_size ≡ b = omega arith in rw (ne, back)

stale-last :
    (b a z x : Ptr) (cs : List Cell)
    → Layout a cs z
    → stale b cs ≡ true
    → last_addr (release b cs) x < b
unfolding stale release
stale-last b a z x [] l s = cc
stale-last b a z x (c ∷ []) l s = cc
stale-last b a z x (c ∷ d ∷ []) l s = ground arith
stale-last b a z x (c ∷ d ∷ e ∷ cs) l s = elim (Bool-cases (c.addr == b)) [
  | inl hit ↦
      absurd (false≢true (sym (stale_above b (behind c) z d (e ∷ cs) l.1 (ground arith)) ∙ s))
  | inr miss ↦ elim (Bool-cases (d.addr == b && c.free)) [
    | inl pair ↦
        absurd (false≢true (sym (stale_above b (behind c) z d (e ∷ cs) l.1 (ground arith)) ∙ s))
    | inr alone ↦ rw (miss, alone) (stale-last b (behind c) z c.addr (d ∷ e ∷ cs) l.1 s)
  ]
]

stale_is_last : (b x : Ptr) (cs : List Cell) → stale b cs ≡ true → last_addr cs x ≡ b
unfolding stale
stale_is_last b x [] s = cc
stale_is_last b x (c ∷ []) s = cc
stale_is_last b x (c ∷ d ∷ []) s = ground arith
stale_is_last b x (c ∷ d ∷ e ∷ cs) s = stale_is_last b c.addr (d ∷ e ∷ cs) s

mm_free-Outcome :
    (h : Heap) (cs : List Cell) (b : Ptr)
    → Rep h cs
    → InUse b cs
    → Returns (Outcome h null h.base b cs) (mm_free (b + header_size) h)
mm_free-Outcome h cs b v u =
    rw (mm_free-freeing b h)
      (freeing-Outcome h cs null h.base h.break b v.base v.base (λ e. inl refl) v.layout v.links u)

-- mm_free() of the payload of a cell that is given out frees the cell, and joins it with a free cell
-- in front and with one behind; no byte changes. It does so unless the cell is the last one and the
-- one in front of it is free.
pub mm_free-release :
    (h : Heap) (cs : List Cell) (b : Ptr)
    → Rep h cs
    → InUse b cs
    → stale b cs ≡ false
    → Returns (λ u g. Rep g (release b cs) × (g.byte ≡ h.byte)) (mm_free (b + header_size) h)
mm_free-release h [] b v u fresh = absurd u
mm_free-release h (c ∷ cs) b v u fresh =
    mono (Outcome h null h.base b (c ∷ cs)) _ _ (mm_free-Outcome h (c ∷ cs) b v u) λ _ g o. (
      record {
        first = o.same.0 ∙ v.first;
        base = rw (o.same.1) v.base;
        head = o.same.1 ∙ v.head ∙ sym (release-first b c cs null);
        end = o.end null null fresh v.end;
        links = o.links;
        layout = rw (o.same.1, o.same.2) (release-Layout b h.base h.break (c ∷ cs) v.layout);
      },
      o.same.3,
    )

-- When the last cell is freed and the one in front of it is free, the blocks are joined and linked as
-- they should be, but `end` goes on pointing at the freed block, behind the header of the last one.
pub mm_free-stale_end :
    (h : Heap) (cs : List Cell) (b : Ptr)
    → Rep h cs
    → InUse b cs
    → stale b cs ≡ true
    → Returns
        (λ u g.
          Links g.node null (release b cs) null
          × (g.end ≡ h.end)
          × (last_addr (release b cs) null < b)
          × ¬ Rep g (release b cs))
        (mm_free (b + header_size) h)
mm_free-stale_end h cs b v u s =
    mono (Outcome h null h.base b cs) _ _ (mm_free-Outcome h cs b v u) λ _ g o. (
      o.links,
      o.kept s,
      stale-last b h.base h.break null cs v.layout s,
      λ w. absurd (
          omega (
            arith,
            o.kept s,
            w.end,
            v.end,
            stale_is_last b null cs s,
            stale-last b h.base h.break null cs v.layout s,
          )),
    )
