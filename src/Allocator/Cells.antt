-- ===== src/Allocator/Cells.antt =====
-- hw-memory/mm_alloc/mm_alloc.c: the blocks of the heap as a list, in the order of their addresses.
use os_tools_and_features.Prelude.{
  ℕ, ◌+◌, ◌-◌, ◌≤◌, ◌<◌, ◌≡◌, ◌∙◌, List, [], ◌∷◌, ◌++◌, Option, none, some, Bool, true, false, ◌&&◌,
  leb, if◌then◌else◌, arith,
}
use os_tools_and_features.Allocator.{
  Ptr, null, header_size, Block, block, Heap, Run, Cmd, and_then, ok, fault, out_of_fuel,
}

-- A run that returns, with a postcondition of its value and the memory that it leaves.
abbrev pub Returns : {A : Type 0} → (A → Heap → Type 0) → Run A → Type 0
Returns P (ok a g) = P a g
Returns P fault = ⊥
Returns P out_of_fuel = ⊥

pub record Cell : Type 0 where
  pub addr : Ptr
  pub size : ℕ
  pub free : Bool

abbrev pub cell : Ptr → ℕ → Bool → Cell
cell a s f = record { addr = a; size = s; free = f }

abbrev pub flag : Bool → ℕ
flag f = if f then 1 else 0

-- The address behind the payload.
abbrev pub behind : Cell → Ptr
behind c = c.addr + header_size + c.size

abbrev pub first_addr : List Cell → Ptr → Ptr
first_addr [] d = d
first_addr (c ∷ cs) d = c.addr

abbrev pub last_addr : List Cell → Ptr → Ptr
last_addr [] d = d
last_addr (c ∷ cs) d = last_addr cs c.addr

-- The headers of `cs` are linked both ways, between the blocks at `prev` and `next`.
abbrev pub Links : (Ptr → Option Block) → Ptr → List Cell → Ptr → Type 0
Links node prev [] next = Unit
Links node prev (c ∷ cs) next =
    (node c.addr ≡ some (block c.size (flag c.free) (first_addr cs next) prev))
    × Links node c.addr cs next

-- The blocks fill the memory from `a` to `z`.
abbrev pub Layout : Ptr → List Cell → Ptr → Type 0
Layout a [] z = a ≡ z
Layout a (c ∷ cs) z = (c.addr ≡ a) × Layout (behind c) cs z

-- The memory `h` holds exactly the blocks `cs`.
pub record Rep (h : Heap) (cs : List Cell) : Type 0 where
  pub first : h.first ≡ 0
  pub base : 0 < h.base
  pub head : h.base ≡ first_addr cs null
  pub end : h.end ≡ last_addr cs null
  pub links : Links h.node null cs null
  pub layout : Layout h.base cs h.break

pub Layout-le : (cs : List Cell) (a z : Ptr) → Layout a cs z → a ≤ z
Layout-le [] a z l = omega arith
Layout-le (c ∷ cs) a z (e, l) = omega (arith, Layout-le cs (behind c) z l)

-- Links survive a change elsewhere.
pub Links-frame :
    {node node' : Ptr → Option Block} (cs : List Cell) (a z prev next : Ptr)
    → Layout a cs z
    → Links node prev cs next
    → ((q : Ptr) → a ≤ q → q < z → node' q ≡ node q)
    → Links node' prev cs next
Links-frame [] a z prev next l k same = tt
Links-frame (c ∷ cs) a z prev next (e, l) (k, ks) same =
    let bound = Layout-le cs (behind c) z l in
    (
      same c.addr (omega arith) (omega arith) ∙ k,
      Links-frame cs (behind c) z c.addr next l ks (λ q h. same q (omega arith)),
    )

-- First fit: the first free cell with room is cut, or taken whole. The result has the cell as it
-- was, and the list after.
unfoldable pub carve : ℕ → Cell → List Cell
carve size c =
    if leb header_size (c.size - size)
    then cell c.addr size false
      ∷ cell (c.addr + header_size + size) (c.size - header_size - size) true
      ∷ []
    else cell c.addr c.size false ∷ []

abbrev pub has_room : ℕ → Cell → Bool
has_room size c = c.free && leb size c.size

abbrev pub behind_cell : Cell → Option (Cell × List Cell) → Option (Cell × List Cell)
behind_cell c none = none
behind_cell c (some (d, cs)) = some (d, c ∷ cs)

unfoldable pub place : ℕ → List Cell → Option (Cell × List Cell)
place size [] = none
place size (c ∷ cs) =
    if has_room size c then some (c, carve size c ++ cs) else behind_cell c (place size cs)

pub bind :
    {A B : Type 0} (P : A → Heap → Type 0) (Q : B → Heap → Type 0) (r : Run A) (f : A → Cmd B)
    → Returns P r
    → ((a : A) (g : Heap) → P a g → Returns Q (f a g))
    → Returns Q (and_then r f)
bind P Q (ok a g) f p next = next a g p
bind P Q fault f p next = absurd p
bind P Q out_of_fuel f p next = absurd p

pub mono :
    {A : Type 0} (P Q : A → Heap → Type 0) (r : Run A)
    → Returns P r
    → ((a : A) (g : Heap) → P a g → Q a g)
    → Returns Q r
mono P Q (ok a g) p f = f a g p
mono P Q fault p f = p
mono P Q out_of_fuel p f = p
