-- ===== src/Allocator/Used.antt =====
-- hw-memory/mm_alloc/mm_alloc.c: what an allocation leaves alone, and the first call of all.
use mathlib.Core.List.{Perm, perm_append_comm}
use mathlib.Core.List.Perm
use os_tools_and_features.Prelude.{
  ℕ, suc, ◌+◌, ◌-◌, ◌^◌, ◌%◌, ◌≤◌, ◌<◌, ◌≡◌, refl, List, [], ◌∷◌, ◌++◌, Option, none, some, Bool,
  true, false, ◌==◌, leb, if◌then◌else◌, arith, inl, inr, Bool-cases,
}
use os_tools_and_features.Allocator.{
  Ptr, null, header_size, minus_one, Heap, Os, ok, fault, load, memset, search, first_block,
  mm_malloc,
}
use os_tools_and_features.Allocator.Cells.{Returns, Cell, cell, carve, has_room, behind_cell, place}
use os_tools_and_features.Allocator.Malloc.{fit_result, first_fit, Allocated, grow-some, grow-none}

-- The cells that are given out.
abbrev pub used : List Cell → List Cell
used [] = []
used (c ∷ cs) = if c.free then used cs else c ∷ used cs

used-append : (xs ys : List Cell) → used (xs ++ ys) ≡ used xs ++ used ys
used-append [] ys = refl
used-append (x ∷ xs) ys = ground (arith, used-append xs ys)

-- The list `cs'` is `cs` with one more cell in use, at the address of `c`, of at least `size` bytes.
abbrev pub OneMore : ℕ → Cell → List Cell → List Cell → Type 0
OneMore size c cs cs' = (s : ℕ) × (size ≤ s) × Perm (used cs') (cell c.addr s false ∷ used cs)

carve-OneMore :
    (size : ℕ) (c : Cell) (cs : List Cell)
    → has_room size c ≡ true
    → OneMore size c (c ∷ cs) (carve size c ++ cs)
unfolding carve
carve-OneMore size c cs room = elim (Bool-cases (leb header_size (c.size - size))) [
  | inl e ↦ rw e (size, omega arith, ground (arith, Perm.refl (cell c.addr size false ∷ used cs)))
  | inr e ↦
      rw e (c.size, ground arith, ground (arith, Perm.refl (cell c.addr c.size false ∷ used cs)))
]

used-cons :
    (size : ℕ) (c d : Cell) (cs cs' : List Cell) (f : Bool)
    → c.free ≡ f
    → OneMore size d cs cs'
    → OneMore size d (c ∷ cs) (c ∷ cs')
used-cons size c d cs cs' true e (s, le, p) = (s, le, simp e p)
used-cons size c d cs cs' false e (s, le, p) =
    (s, le, simp e (Perm.trans (Perm.cons c p) (Perm.swap (cell d.addr s false) c (used cs))))

abbrev Placed : ℕ → List Cell → Option (Cell × List Cell) → Type 0
Placed size cs none = Unit
Placed size cs (some (d, cs')) = OneMore size d cs cs'

place-Placed : (size : ℕ) (cs : List Cell) → Placed size cs (place size cs)
unfolding place
place-Placed size [] = tt
place-Placed size (c ∷ cs) = elim (Bool-cases (has_room size c)) [
  | inl room ↦ rw room (carve-OneMore size c cs room)
  | inr full ↦ rw full (later (place size cs) (place-Placed size cs))
]
  where
    later :
        (o : Option (Cell × List Cell)) → Placed size cs o → Placed size (c ∷ cs) (behind_cell c o)
    later none p = tt
    later (some (d, cs')) p = used-cons size c d cs cs' c.free refl p

abbrev pub Fitted : ℕ → List Cell → Option Cell × List Cell → Type 0
Fitted size cs (none, cs') = cs' ≡ cs
Fitted size cs (some c, cs') = OneMore size c cs cs'

-- Whatever the system answers, first fit either gives nothing out and changes no cell, or gives out
-- one cell of at least `size` bytes: the cells in use are then those of before and this one.
pub first_fit-Fitted :
    (extra : Option Ptr) (size : ℕ) (cs : List Cell) → Fitted size cs (first_fit extra size cs)
unfolding first_fit
first_fit-Fitted extra size cs = go (place size cs) extra (place-Placed size cs)
  where
    go :
        (o : Option (Cell × List Cell)) (extra : Option Ptr)
        → Placed size cs o
        → Fitted size cs (fit_result o extra size cs)
    go (some (d, cs')) extra p = p
    go none none p = refl
    go none (some a) p = (
      size,
      omega arith,
      rw (used-append cs (cell a size false ∷ []))
          (perm_append_comm (used cs) (cell a size false ∷ [])),
    )

-- The first call gets its block from the system: it returns the payload of the only cell, whose
-- bytes are zero.
pub mm_malloc_first :
    (os : Os) (fuel size : ℕ) (h : Heap)
    → h.first ≡ 1
    → 0 < h.break
    → 0 < size
    → size + header_size < 2 ^ 31
    → os.sbrk h.break (size + header_size) ≡ some h.break
    → Returns
        (Allocated h size (some (cell h.break size false), cell h.break size false ∷ []))
        (mm_malloc os fuel size h)
unfolding mm_malloc first_block memset
mm_malloc_first os fuel size h e pos ne small granted =
    let sized : (size == 0) ≡ false = ground arith in
    let starts : (h.first == 1) ≡ true = ground arith in
    let whole : (size + header_size) % 2 ^ 32 ≡ size + header_size = omega arith in
    rw
      (
        sized,
        starts,
        grow-some os (record h { first = 0 }) (size + header_size) h.break (rw whole granted),
        whole,
      )
      (
        refl,
        record {
          first = refl;
          base = pos;
          head = refl;
          end = refl;
          links = (ground arith, tt);
          layout = (refl, ground arith);
        },
        (ground arith, ground arith),
      )

-- When the system refuses the first request, `base` is left at -1 and no call tries again: if there
-- is no block at that address, the next request for any size but 0 is a fault.
pub mm_malloc_after_failure :
    (os : Os) (fuel fuel' size size' : ℕ) (h : Heap)
    → h.first ≡ 1
    → 0 < size
    → 0 < size'
    → os.sbrk h.break ((size + header_size) % 2 ^ 32) ≡ none
    → h.node minus_one ≡ none
    → (g : Heap) × (mm_malloc os fuel size h ≡ ok null g)
      × (mm_malloc os (suc fuel') size' g ≡ fault)
unfolding mm_malloc first_block search load
mm_malloc_after_failure os fuel fuel' size size' h e ne ne' refused unmapped =
    let sized : (size == 0) ≡ false = ground arith in
    let sized' : (size' == 0) ≡ false = ground arith in
    let starts : (h.first == 1) ≡ true = ground arith in
    (
      record h { first = 0; base = minus_one },
      rw (sized, starts, grow-none os (record h { first = 0 }) (size + header_size) refused),
      rw sized' (rw (unmapped, load)),
    )
