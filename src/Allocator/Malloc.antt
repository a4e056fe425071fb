-- ===== src/Allocator/Malloc.antt =====
-- hw-memory/mm_alloc/mm_alloc.c: mm_malloc() as an operation on the list of cells.
use os_tools_and_features.Prelude.{
  subst, sym, ℕ, ◌+◌, ◌^◌, ◌%◌, ◌≤◌, ◌<◌, ◌≡◌, ◌≢◌, refl, ap, ◌∙◌, List, [], ◌∷◌, ◌++◌, Option,
  none, some, Bool, false, ◌==◌, arith, ◌⊎◌, inl, inr, length, Option-cases,
}
use os_tools_and_features.Allocator.{
  Ptr, null, header_size, Block, block, Heap, Os, moved_break, ok, modify, load, memset, search,
  grow, append_block, malloc_result, mm_malloc,
}
use os_tools_and_features.Allocator.Cells.{
  Returns, bind, mono, Cell, cell, behind, first_addr, last_addr, Links, Layout, Rep, place,
}
use os_tools_and_features.Allocator.Place.{Found}
use os_tools_and_features.Allocator.Search.{place-first, Searched, search-Searched}

-- What a request for `size` bytes comes to: the cell that is given out, if any, and the cells after.
-- `extra` is the answer of the system to a request for a new block.
abbrev pub fit_result :
    Option (Cell × List Cell) → Option Ptr → ℕ → List Cell → Option Cell × List Cell
fit_result (some (c, cs')) extra size cs = (some c, cs')
fit_result none none size cs = (none, cs)
fit_result none (some a) size cs = (some (cell a size false), cs ++ cell a size false ∷ [])

unfoldable pub first_fit : Option Ptr → ℕ → List Cell → Option Cell × List Cell
first_fit extra size cs = fit_result (place size cs) extra size cs

abbrev pub payload : Option Cell → Ptr
payload none = null
payload (some c) = c.addr + header_size

-- Outside of the cell that is given out no byte changes, and the requested bytes are zero.
abbrev pub Bytes : Heap → ℕ → Option Cell → Heap → Type 0
Bytes h size none g = (q : Ptr) → g.byte q ≡ h.byte q
Bytes h size (some c) g =
    ((q : Ptr) → c.addr + header_size ≤ q → q < c.addr + header_size + size → g.byte q ≡ 0)
    × ((q : Ptr) → (q < c.addr) ⊎ (behind c ≤ q) → g.byte q ≡ h.byte q)

last-bounds :
    (c : Cell) (cs : List Cell) (a z : Ptr)
    → Layout a (c ∷ cs) z
    → (a ≤ last_addr cs c.addr) × (last_addr cs c.addr + header_size ≤ z)
last-bounds c [] a z (e, l) = omega arith
last-bounds c (d ∷ cs) a z (e, l) = omega (arith, last-bounds d cs (behind c) z l)

Layout-snoc :
    (cs : List Cell) (a z size : ℕ) (f : Bool)
    → Layout a cs z
    → Layout a (cs ++ cell z size f ∷ []) (z + header_size + size)
Layout-snoc [] a z size f l = (omega arith, refl)
Layout-snoc (c ∷ cs) a z size f (e, l) = (e, Layout-snoc cs (behind c) z size f l)

last_addr-snoc : (cs : List Cell) (c : Cell) (d : Ptr) → last_addr (cs ++ c ∷ []) d ≡ c.addr
last_addr-snoc [] c d = refl
last_addr-snoc (x ∷ cs) c d = last_addr-snoc cs c x.addr

-- The last block, and what it takes to put another behind it.
Links-last :
    (node : Ptr → Option Block) (c : Cell) (cs : List Cell) (prev : Ptr)
    → Links node prev (c ∷ cs) null
    → (b : Block) × (node (last_addr cs c.addr) ≡ some b)
Links-last node c [] prev (k, ks) = (_, k)
Links-last node c (d ∷ cs) prev (k, ks) = Links-last node d cs c.addr ks

Links-snoc :
    (node node' : Ptr → Option Block) (c : Cell) (cs : List Cell) (prev a z size : ℕ) (b : Block)
    → Layout a (c ∷ cs) z
    → Links node prev (c ∷ cs) null
    → node (last_addr cs c.addr) ≡ some b
    → node' (last_addr cs c.addr) ≡ some (record b { next = z })
    → node' z ≡ some (block size 0 null (last_addr cs c.addr))
    → ((q : Ptr) → q < z → q ≢ last_addr cs c.addr → node' q ≡ node q)
    → Links node' prev (c ∷ cs ++ cell z size false ∷ []) null
Links-snoc node node' c [] prev a z size b l (k, ks) e e' new same = (ground arith, (new, tt))
Links-snoc node node' c (d ∷ cs) prev a z size b (x, l) (k, ks) e e' new same =
    let bound = last-bounds d cs (behind c) z l in
    (
      same c.addr (omega arith) (omega arith) ∙ k,
      Links-snoc node node' d cs c.addr (behind c) z size b l ks e e' new same,
    )

-- A new block at the break, which the system has moved.
record Appended (h : Heap) (size : ℕ) (b : Block) (r : Ptr) (g : Heap) : Type 0 where
  value : r ≡ h.break + header_size
  globals : (g.first ≡ h.first) × (g.base ≡ h.base) × (g.end ≡ h.break)
  break : g.break ≡ moved_break h.break ((size + header_size) % 2 ^ 32)
  old : g.node h.end ≡ some (record b { next = h.break })
  new : g.node h.break ≡ some (block size 0 null h.end)
  same : (q : Ptr) → q < h.break → q ≢ h.end → g.node q ≡ h.node q
  bytes : Bytes h size (some (cell h.break size false)) g

pub grow-some :
    (os : Os) (h : Heap) (n a : ℕ)
    → os.sbrk h.break (n % 2 ^ 32) ≡ some a
    → grow os n h ≡ ok (some a) (record h { break = moved_break a (n % 2 ^ 32) })
unfolding grow
grow-some os h n a e = rw (e, grow)

pub grow-none :
    (os : Os) (h : Heap) (n : ℕ) → os.sbrk h.break (n % 2 ^ 32) ≡ none → grow os n h ≡ ok none h
unfolding grow
grow-none os h n e = rw (e, grow)

append_block-Appended :
    (os : Os) (h : Heap) (size : ℕ) (b : Block)
    → os.sbrk h.break ((size + header_size) % 2 ^ 32) ≡ some h.break
    → h.node h.end ≡ some b
    → h.end < h.break
    → Returns (Appended h size b) (append_block os size h)
unfolding append_block modify load memset
append_block-Appended os h size b e k lt =
    rw (grow-some os h (size + header_size) h.break e) (ground arith)

append_block-null :
    (os : Os) (h : Heap) (size : ℕ)
    → os.sbrk h.break ((size + header_size) % 2 ^ 32) ≡ none
    → append_block os size h ≡ ok null h
unfolding append_block
append_block-null os h size e = rw (grow-none os h (size + header_size) e)

-- The outcome of a call of mm_malloc().
abbrev pub Allocated : Heap → ℕ → Option Cell × List Cell → Ptr → Heap → Type 0
Allocated h size (given, cs) r g = (r ≡ payload given) × Rep g cs × Bytes h size given g

Appended-Allocated :
    (h g : Heap) (size r : ℕ) (b : Block) (c : Cell) (cs : List Cell)
    → size + header_size < 2 ^ 31
    → Rep h (c ∷ cs)
    → h.node h.end ≡ some b
    → Appended h size b r g
    → Allocated h size (some (cell h.break size false), c ∷ cs ++ cell h.break size false ∷ []) r g
Appended-Allocated h g size r b c cs small v k p = (
  p.value,
  record {
    first = p.globals.0 ∙ v.first;
    base = ground arith;
    head = p.globals.1 ∙ v.head;
    end = p.globals.2 ∙ sym (last_addr-snoc (c ∷ cs) (cell h.break size false) null);
    links =
        Links-snoc h.node g.node c cs null h.base h.break size b v.layout v.links (rw (← v.end) k)
          (rw (← v.end) p.old) (rw (← v.end) p.new) (λ q lo ne. p.same q lo (rw v.end ne));
    layout = rw (p.globals.1, moved) (Layout-snoc (c ∷ cs) h.base h.break size false v.layout);
  },
  p.bytes,
)
  where
    moved : g.break ≡ h.break + header_size + size
    moved = ground (arith, p.break)

append-Allocated :
    (os : Os) (h : Heap) (size : ℕ) (c : Cell) (cs : List Cell)
    → size + header_size < 2 ^ 31
    → Rep h (c ∷ cs)
    → place size (c ∷ cs) ≡ none
    → Returns
        (Allocated h size
          (first_fit (os.sbrk h.break ((size + header_size) % 2 ^ 32)) size (c ∷ cs)))
        (append_block os size h)
unfolding first_fit
append-Allocated os h size c cs small v miss =
    elim (Option-cases (os.sbrk h.break ((size + header_size) % 2 ^ 32))) [
      | inl fails ↦ rw (append_block-null os h size fails, miss, fails) (refl, v, λ q. refl)
      | inr (a, granted) ↦
          let granted' = granted ∙ ap some (os.previous_break _ _ a granted) in
          let (b, k) = Links-last h.node c cs null v.links in
          let k' : h.node h.end ≡ some b = rw v.end k in
          let lt = last-bounds c cs h.base h.break v.layout in
          rw (miss, granted')
            (mono (Appended h size b) _ _
              (append_block-Appended os h size b granted' k' (omega (arith, lt, v.end)))
              λ r g p. Appended-Allocated h g size r b c cs small v k' p)
    ]

Found-Rep :
    (h g : Heap) (size : ℕ) (c d : Cell) (cs ds : List Cell)
    → Rep h (c ∷ cs)
    → Found h size null h.base h.break (c ∷ cs) d ds g
    → first_addr ds null ≡ c.addr
    → Rep g ds
Found-Rep h g size c d cs ds v f e = record {
  first = f.globals.0 ∙ v.first;
  base = ground arith;
  head = ground arith;
  end = f.end null v.end;
  links = f.links;
  layout = rw (f.globals.1, f.globals.2) f.layout;
}

search-Allocated :
    (os : Os) (h : Heap) (size : ℕ) (c : Cell) (cs : List Cell)
    → size + header_size < 2 ^ 31
    → Rep h (c ∷ cs)
    → (o : Option (Cell × List Cell)) → place size (c ∷ cs) ≡ o
    → (found : Option Ptr) (g : Heap) → Searched h size null h.base h.break (c ∷ cs) o found g
    → Returns
        (Allocated h size
          (first_fit (os.sbrk h.break ((size + header_size) % 2 ^ 32)) size (c ∷ cs)))
        (malloc_result os size found g)
unfolding first_fit
search-Allocated os h size c cs small v none e found g (n, same) =
    rw (n, same) (append-Allocated os h size c cs small v e)
search-Allocated os h size c cs small v (some (d, ds)) e found g (n, f) =
    rw (n, e)
      (
        refl,
        Found-Rep h g size c d cs ds v f (place-first size (c ∷ cs) d ds e),
        (f.zeroed, f.bytes),
      )

-- mm_malloc() is first fit. In a heap that holds the cells `cs`, a request for `size` bytes, which is
-- not 0 and below 2^31 together with a header, returns the payload of the cell that first fit
-- gives out, or null where it finds none and the system refuses; the heap then holds the cells of
-- first fit, the requested bytes are zero, and no byte outside of the cell has changed. The loop ends
-- within one round more than there are cells.
pub mm_malloc-first_fit :
    (os : Os) (fuel size : ℕ) (h : Heap) (cs : List Cell)
    → Rep h cs
    → 0 < size
    → size + header_size < 2 ^ 31
    → length cs < fuel
    → Returns
        (Allocated h size (first_fit (os.sbrk h.break ((size + header_size) % 2 ^ 32)) size cs))
        (mm_malloc os fuel size h)
unfolding mm_malloc
mm_malloc-first_fit os fuel size h [] v pos small enough = absurd (omega (arith, v.head, v.base))
mm_malloc-first_fit os fuel size h (c ∷ cs) v pos small enough =
    let sized : (size == 0) ≡ false = ground arith in
    let started : (h.first == 1) ≡ false = ground arith in
    rw (sized, started)
      (bind (Searched h size null h.base h.break (c ∷ cs) (place size (c ∷ cs))) _
        (search fuel size h.base h) _ searched
        λ found g s. search-Allocated os h size c cs small v (place size (c ∷ cs)) refl found g s)
  where
    searched :
        Returns
          (Searched h size null h.base h.break (c ∷ cs) (place size (c ∷ cs)))
          (search fuel size h.base h)
    searched =
        subst
          (λ p.
            Returns (Searched h size null h.base h.break (c ∷ cs) (place size (c ∷ cs)))
              (search fuel size p h))
          (sym v.head)
          (search-Searched h size (c ∷ cs) fuel null h.base h.break enough v.base v.layout v.links)
