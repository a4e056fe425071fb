-- ===== src/Inode/Writing.antt =====
-- proj-pregame/src/filesys/inode.c: inode_write_at().
use os_tools_and_features.Prelude.{
  ℕ, zero, suc, ◌+◌, ◌-◌, ◌/◌, ◌%◌, ◌≤◌, ◌<◌, ◌≡◌, ◌≢◌, ◌∙◌, sym, refl, ap, Option, some, true,
  false, ◌&&◌, ◌==◌, ltb, leb, arith, ==_iff, ne→==_false, if◌then◌else◌, Bool-cases, inl, inr,
}
use os_tools_and_features.Inode.{
  Bytes, Disk, Inode, sector_of, chunk_size, is_full, stops, Writer, write_chunk, write_loop,
  inode_write_at,
}
use os_tools_and_features.Inode.Place.{
  joined, same_sector, aligned, byte_at, todo, chunk_bounds, stops-todo,
}

-- `n` bytes of the buffer, from its place `at` on, are the bytes of the file from `offset`; the others
-- are as before, and so is each sector that has no byte of the file.
abbrev pub WritesTo : Bytes → Inode → Writer → Option Writer → Type 0
WritesTo buffer inode w o =
    (g : Writer) × (o ≡ some g)
    × (g.bytes_written ≡ w.bytes_written + todo inode w.size w.offset)
    × ((i : ℕ)
        → byte_at g.disk inode i ≡ (
            if leb w.offset i && ltb i (w.offset + todo inode w.size w.offset)
            then buffer (w.bytes_written + (i - w.offset))
            else byte_at w.disk inode i))
    × ((s : ℕ) → ((i : ℕ) → i < inode.length → sector_of inode i ≢ s) → g.disk s ≡ w.disk s)

module _ (buffer : Bytes) (inode : Inode) (c : ℕ) (w : Writer) where
  write_chunk-bytes :
      w.offset % 512 + c ≤ 512
      → (i : ℕ)
      → byte_at (write_chunk buffer inode c w).disk inode i ≡ (
          if leb w.offset i && ltb i (w.offset + c)
          then buffer (w.bytes_written + (i - w.offset))
          else byte_at w.disk inode i)
  write_chunk-bytes h i = elim (Bool-cases (sector_of inode i == sector_of inode w.offset)) [
    | inl here ↦
        let q : i / 512 ≡ w.offset / 512 = ground arith in
        rw here (elim (Bool-cases (is_full w.offset c)) [
          | inl full ↦ rw full (ground (arith, aligned w.offset i q))
          | inr part ↦ rw part (elim (Bool-cases (leb w.offset i)) [
            | inl late ↦ ground (arith, aligned w.offset i q)
            | inr early ↦ ground (arith, aligned w.offset i q)
          ])
        ])
    | inr other ↦ rw other (ground (arith, same_sector w.offset (i - w.offset)))
  ]

  write_chunk-frame :
      stops true inode w.size w.offset ≡ false
      → (s : ℕ) → ((i : ℕ) → i < inode.length → sector_of inode i ≢ s)
      → (write_chunk buffer inode c w).disk s ≡ w.disk s
  write_chunk-frame h s out = elim (Bool-cases (s == sector_of inode w.offset)) [
    | inl here ↦ absurd (out w.offset (ground arith) (sym ((==_iff s _).0 here)))
    | inr other ↦ rw other refl
  ]

write_loop-WritesTo :
    (k : ℕ) (buffer : Bytes) (inode : Inode) (w : Writer)
    → w.size ≤ k
    → WritesTo buffer inode w (write_loop k true buffer inode w)
unfolding write_loop
write_loop-WritesTo zero buffer inode w h = elim (Bool-cases (stops true inode w.size w.offset)) [
  | inl stop ↦
      let z = stops-todo inode w.size w.offset stop in
      rw (stop, z) (w, refl, omega arith, (λ i. ground arith), λ s n. refl)
  | inr go ↦ ground (arith, chunk_bounds inode w.size w.offset go)
]
write_loop-WritesTo (suc k) buffer inode w h =
    elim (Bool-cases (stops true inode w.size w.offset)) [
      | inl stop ↦
          let z = stops-todo inode w.size w.offset stop in
          rw (stop, z) (w, refl, omega arith, (λ i. ground arith), λ s n. refl)
      | inr go ↦
          let c = chunk_size inode w.size w.offset in
          let (a, b, d, s) = chunk_bounds inode w.size w.offset go in
          let (g, e, n, f, o) =
            write_loop-WritesTo k buffer inode (write_chunk buffer inode c w) (omega arith) in
          rw go (
            g,
            e,
            n ∙ omega (arith, s),
            (λ i.
                f i
                ∙ ap
                    (λ x.
                      if leb (w.offset + c) i
                        && ltb i (w.offset + c + todo inode (w.size - c) (w.offset + c))
                      then buffer (w.bytes_written + c + (i - (w.offset + c)))
                      else x)
                    (write_chunk-bytes buffer inode c w d i)
                ∙ joined buffer w.bytes_written w.offset c
                    (w.offset + c + todo inode (w.size - c) (w.offset + c)) i
                    (byte_at w.disk inode i) (omega arith)
                ∙ ap
                    (λ m.
                      if leb w.offset i && ltb i m
                      then buffer (w.bytes_written + (i - w.offset))
                      else byte_at w.disk inode i)
                    (omega (arith, s))),
            λ t out. o t out ∙ write_chunk-frame buffer inode c w go t out,
          )
    ]

-- When writes are not denied and a bounce buffer can be had, `size` rounds are enough for
-- inode_write_at(): the bytes of the buffer become the bytes of the file from `offset`, up to `size` of
-- them and not beyond the end of the file; all other bytes of the file and all sectors that hold none of
-- it stay. When writes are denied it writes nothing.
pub inode_write_at-bytes :
    (disk : Disk) (inode : Inode) (buffer : Bytes) (size offset : ℕ)
    → (inode.deny_write_cnt ≡ 0
        → WritesTo buffer inode
            (record { size = size; offset = offset; bytes_written = 0; disk = disk })
            (inode_write_at size true disk inode buffer size offset))
      × (inode.deny_write_cnt ≢ 0
          → inode_write_at size true disk inode buffer size offset
            ≡ some (record { size = size; offset = offset; bytes_written = 0; disk = disk }))
unfolding inode_write_at
inode_write_at-bytes disk inode buffer size offset = (
  (λ z. rw ((==_iff inode.deny_write_cnt 0).1 z) (
      write_loop-WritesTo size buffer inode
        (record { size = size; offset = offset; bytes_written = 0; disk = disk }) (omega arith))),
  λ n. rw (ne→==_false inode.deny_write_cnt 0 n) refl,
)
