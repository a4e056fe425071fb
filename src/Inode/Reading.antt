-- ===== src/Inode/Reading.antt =====
-- proj-pregame/src/filesys/inode.c: inode_read_at().
use os_tools_and_features.Prelude.{
  ℕ, zero, suc, ◌+◌, ◌-◌, ◌%◌, ◌≤◌, ◌≡◌, ◌∙◌, refl, ap, Option, some, true, ◌&&◌, ltb, leb, arith,
  if◌then◌else◌, Bool-cases, inl, inr,
}
use os_tools_and_features.Inode.{
  Bytes, Disk, Inode, chunk_size, is_full, stops, Reader, read_chunk, read_loop, inode_read_at,
}
use os_tools_and_features.Inode.Place.{joined, byte_at, same_sector, todo, chunk_bounds, stops-todo}

-- The buffer has `n` bytes of the file from `offset`, from the place `at` on, and is as before elsewhere.
abbrev pub ReadsTo : Disk → Inode → Reader → Option Reader → Type 0
ReadsTo disk inode r o =
    (g : Reader) × (o ≡ some g)
    × (g.bytes_read ≡ r.bytes_read + todo inode r.size r.offset)
    × ((p : ℕ)
        → g.buffer p ≡ (
            if leb r.bytes_read p && ltb p g.bytes_read
            then byte_at disk inode (r.offset + (p - r.bytes_read))
            else r.buffer p))

-- One round moves the bytes of the file.
read_chunk-bytes :
    (disk : Disk) (inode : Inode) (c : ℕ) (r : Reader)
    → r.offset % 512 + c ≤ 512
    → (p : ℕ)
    → (read_chunk disk inode c r).buffer p ≡ (
        if leb r.bytes_read p && ltb p (r.bytes_read + c)
        then byte_at disk inode (r.offset + (p - r.bytes_read))
        else r.buffer p)
read_chunk-bytes disk inode c r h p =
    elim (Bool-cases (leb r.bytes_read p && ltb p (r.bytes_read + c))) [
      | inl within ↦
          let (e, f) = same_sector r.offset (p - r.bytes_read) (ground arith) in
          rw (within, e, f)
            (elim (Bool-cases (is_full r.offset c)) [
              | inl full ↦ rw full (ground arith)
              | inr part ↦ rw part (ground arith)
            ])
      | inr beyond ↦ rw beyond (elim (Bool-cases (is_full r.offset c)) [
        | inl full ↦ rw full (ground arith)
        | inr part ↦ rw part (ground arith)
      ])
    ]

read_loop-ReadsTo :
    (k : ℕ) (disk : Disk) (inode : Inode) (r : Reader)
    → r.size ≤ k
    → ReadsTo disk inode r (read_loop k true disk inode r)
unfolding read_loop
read_loop-ReadsTo zero disk inode r h = elim (Bool-cases (stops true inode r.size r.offset)) [
  | inl stop ↦
      rw stop (r, refl, omega (arith, stops-todo inode r.size r.offset stop), λ p. ground arith)
  | inr go ↦ ground (arith, chunk_bounds inode r.size r.offset go)
]
read_loop-ReadsTo (suc k) disk inode r h = elim (Bool-cases (stops true inode r.size r.offset)) [
  | inl stop ↦
      rw stop (r, refl, omega (arith, stops-todo inode r.size r.offset stop), λ p. ground arith)
  | inr go ↦
      let c = chunk_size inode r.size r.offset in
      let (a, b, d, s) = chunk_bounds inode r.size r.offset go in
      let (g, e, n, f) = read_loop-ReadsTo k disk inode (read_chunk disk inode c r) (omega arith) in
      rw go (
        g,
        e,
        n ∙ omega (arith, s),
        λ p.
            f p
            ∙ ap
                (λ x.
                  if leb (r.bytes_read + c) p && ltb p g.bytes_read
                  then byte_at disk inode (r.offset + c + (p - (r.bytes_read + c)))
                  else x)
                (read_chunk-bytes disk inode c r d p)
            ∙ joined (byte_at disk inode) r.offset r.bytes_read c g.bytes_read p (r.buffer p)
                (omega (arith, n)),
      )
]

-- When a bounce buffer can be had, `size` rounds are enough for inode_read_at(), and it reads as many
-- bytes as the file has from `offset`, up to `size`: they are the bytes of the file, in the order of
-- its sectors, and the rest of the buffer stays.
pub inode_read_at-bytes :
    (disk : Disk) (inode : Inode) (buffer : Bytes) (size offset : ℕ)
    → ReadsTo disk inode
        (record { size = size; offset = offset; bytes_read = 0; buffer = buffer })
        (inode_read_at size true disk inode buffer size offset)
unfolding inode_read_at
inode_read_at-bytes disk inode buffer size offset =
    read_loop-ReadsTo size disk inode _ (omega arith)
