-- ===== src/Inode/Place.antt =====
-- proj-pregame/src/filesys/inode.c: where the bytes of a file are.
use os_tools_and_features.Prelude.{
  ℕ, ◌+◌, ◌-◌, ◌/◌, ◌%◌, ◌≤◌, ◌<◌, ◌≡◌, true, false, ◌&&◌, ltb, leb, le→leb, Bool-cases, inl, inr,
  arith, if◌then◌else◌,
}
use os_tools_and_features.Inode.{
  block_sector_size, Disk, Inode, sector_of, lesser, chunk_size, stops,
}

-- The bytes of a file, as the abstract view has them.
abbrev pub byte_at : Disk → Inode → ℕ → ℕ
byte_at disk inode i = disk (sector_of inode i) (i % block_sector_size)

pub same_sector :
    (o j : ℕ) → o % 512 + j < 512 → ((o + j) / 512 ≡ o / 512) × ((o + j) % 512 ≡ o % 512 + j)
same_sector o j h = (omega arith, omega arith)

-- How many bytes are left to move.
abbrev pub todo : Inode → ℕ → ℕ → ℕ
todo inode size offset = lesser size (inode.length - offset)

pub chunk_bounds :
    (inode : Inode) (size offset : ℕ)
    → stops true inode size offset ≡ false
    → (0 < chunk_size inode size offset)
      × (chunk_size inode size offset ≤ size)
      × (offset % 512 + chunk_size inode size offset ≤ 512)
      × (todo inode size offset
          ≡ chunk_size inode size offset
            + todo inode
                (size - chunk_size inode size offset)
                (offset + chunk_size inode size offset))
chunk_bounds inode size offset h = (ground arith, ground arith, ground arith, ground arith)

pub stops-todo :
    (inode : Inode) (size offset : ℕ)
    → stops true inode size offset ≡ true
    → todo inode size offset ≡ 0
stops-todo inode size offset h = ground arith

-- Two adjacent runs of bytes are one.
pub joined :
    (F : ℕ → ℕ) (o n c m p rest : ℕ)
    → n + c ≤ m
    → (if leb (n + c) p && ltb p m
        then F (o + c + (p - (n + c)))
        else if leb n p && ltb p (n + c)
        then F (o + (p - n))
        else rest)
      ≡ (if leb n p && ltb p m then F (o + (p - n)) else rest)
joined F o n c m p rest h = elim (Bool-cases (leb (n + c) p)) [
  | inl late ↦
      let e : o + c + (p - (n + c)) ≡ o + (p - n) = ground arith in
      rw (late, e, le→leb n p (ground arith)) (ground arith)
  | inr early ↦ ground arith
]

pub aligned :
    (o i : ℕ)
    → i / 512 ≡ o / 512
    → (o ≤ i → i % 512 ≡ o % 512 + (i - o)) × (i < o → i % 512 < o % 512)
aligned o i h = ((λ l. omega arith), λ l. omega arith)
