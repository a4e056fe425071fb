-- ===== src/Allocator/Search.antt =====
-- hw-memory/mm_alloc/mm_alloc.c: the search for a free block is first fit on the list of cells.
use os_tools_and_features.Prelude.{
  ap, length, leb→le, Bool-cases, ℕ, zero, suc, ◌+◌, ◌-◌, ◌<◌, ◌≡◌, refl, List, [], ◌∷◌, ◌++◌,
  Option, none, some, Bool, true, false, ◌&&◌, ◌==◌, leb, if◌then◌else◌, arith, inl, inr,
}
use os_tools_and_features.Allocator.{
  fits, Ptr, null, header_size, Block, block, Heap, Cmd, pure, ◌>>=◌, ok, split, take_whole, load,
  search,
}
use os_tools_and_features.Allocator.Cells.{
  Returns, bind, mono, Cell, cell, flag, behind, first_addr, Links, Layout, carve, has_room,
  behind_cell, place,
}
use os_tools_and_features.Allocator.Place.{Found, Taking, take, take-Taking}

-- The outcome of the search, against first fit on the cells.
abbrev pub Searched :
    Heap → ℕ → Ptr → Ptr → Ptr → List Cell → Option (Cell × List Cell) → Option Ptr → Heap → Type 0
Searched h size prev a z cs none r g = (r ≡ none) × (g ≡ h)
Searched h size prev a z cs (some (c, cs')) r g =
    (r ≡ some (c.addr + header_size)) × Found h size prev a z cs c cs' g

pub place-first :
    (size : ℕ) (cs : List Cell) (d : Cell) (cs' : List Cell)
    → place size cs ≡ some (d, cs')
    → first_addr cs' null ≡ first_addr cs null
unfolding place carve
place-first size [] d cs' e = cc
place-first size (c ∷ cs) d cs' e = go (has_room size c) (place size cs) e
  where
    go :
        (b : Bool) (o : Option (Cell × List Cell))
        → (if b then some (c, carve size c ++ cs) else behind_cell c o) ≡ some (d, cs')
        → first_addr cs' null ≡ c.addr
    go true o e = ground arith
    go false none e = cc
    go false (some (x, xs)) e = ground arith

Found-cons :
    (h g : Heap) (size prev a z : ℕ) (c : Cell) (cs : List Cell)
    → h.node c.addr ≡ some (block c.size (flag c.free) (first_addr cs null) prev)
    → c.addr ≡ a
    → Layout (behind c) cs z
    → (o : Option (Cell × List Cell)) (r : Option Ptr) → (place size cs ≡ o)
    → Searched h size c.addr (behind c) z cs o r g
    → Searched h size prev a z (c ∷ cs) (behind_cell c o) r g
Found-cons h g size prev a z c cs e same l none r p s = s
Found-cons h g size prev a z c cs e same l (some (d, cs')) r p (v, f) = (
  v,
  record {
    links = (ground (arith, f.below c.addr, place-first size cs d cs' p), f.links);
    layout = (same, f.layout);
    end = λ x k. f.end c.addr k;
    globals = f.globals;
    zeroed = f.zeroed;
    bytes = f.bytes;
    below = λ q k. f.below q (omega arith);
  },
)

pub load-ok : (h : Heap) (p : Ptr) (b : Block) → h.node p ≡ some b → load p h ≡ ok b h
unfolding load
load-ok h p b e = rw (e, load)

fits-flag : (size s n p : ℕ) (f : Bool) → fits size (block s (flag f) n p) ≡ (f && leb size s)
fits-flag size s n p true = refl
fits-flag size s n p false = refl

give : (h : Heap) (size b s n p : ℕ) (f : Bool) → Cmd (Option Ptr)
give h size b s n p f =
    (if leb header_size (s - size)
      then split size b (block s (flag f) n p)
      else take_whole b (block s (flag f) n p))
    >>= λ p. pure (some p)

give-Searched :
    (h : Heap) (size b s prev z : ℕ) (f : Bool) (cs : List Cell)
    → (f && leb size s) ≡ true
    → h.node b ≡ some (block s (flag f) (first_addr cs null) prev)
    → Layout (b + header_size + s) cs z
    → Links h.node b cs null
    → Returns
        (Searched h size prev b z
          (cell b s f ∷ cs)
          (some (cell b s f, carve size (cell b s f) ++ cs)))
        (give h size b s (first_addr cs null) prev f h)
unfolding give
give-Searched h size b s prev z false cs room e l k = cc
give-Searched h size b s prev z true cs room e l k =
    bind (Taking h size b s prev z cs) _ (take h size b s prev z cs h) _
      (take-Taking h size b s prev z cs (leb→le _ _ room) e l k) λ r g (v, f). (ap some v, f)

pub search-Searched :
    (h : Heap) (size : ℕ) (cs : List Cell) (k prev a z : ℕ)
    → length cs < k
    → 0 < a
    → Layout a cs z
    → Links h.node prev cs null
    → Returns (Searched h size prev a z cs (place size cs)) (search k size (first_addr cs null) h)
unfolding search place give
search-Searched h size cs zero prev a z fuel pos l k = absurd (omega arith)
search-Searched h size [] (suc n) prev a z fuel pos l k = (refl, refl)
search-Searched h size (c ∷ cs) (suc n) prev a z fuel pos (e, l) (k, ks) =
    let nonnull : (c.addr == null) ≡ false = ground arith in
    rw (nonnull, load-ok h c.addr _ k, fits-flag)
      (elim (Bool-cases (has_room size c)) [
        | inl room ↦
            rw (room, ← e) (give-Searched h size c.addr c.size prev z c.free cs room k l ks)
        | inr full ↦ rw full (
            mono (Searched h size c.addr (behind c) z cs (place size cs)) _ _
              (search-Searched h size cs n c.addr (behind c) z (omega arith) (omega arith) l ks)
              λ r g. Found-cons h g size prev a z c cs k e l (place size cs) r refl)
      ])
