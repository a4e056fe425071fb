-- ===== src/Inode/RoundTrip.antt =====
-- proj-pregame/src/filesys/inode.c: reading what has been written.
use os_tools_and_features.Prelude.{
  ℕ, ◌+◌, ◌-◌, ◌<◌, ◌≡◌, Option, some, true, ◌&&◌, ltb, leb, arith, if◌then◌else◌,
}
use os_tools_and_features.Inode.{Bytes, Disk, Inode, Reader, inode_read_at, Writer, inode_write_at}
use os_tools_and_features.Inode.Place.{byte_at, todo}
use os_tools_and_features.Inode.Reading.{inode_read_at-bytes}
use os_tools_and_features.Inode.Writing.{inode_write_at-bytes}

-- What is left of a write and the read of the same place.
abbrev pub ReadsBack : Inode → Bytes → Bytes → ℕ → ℕ → Option Writer → Type 0
ReadsBack inode buffer other size offset o =
    (w : Writer) × (o ≡ some w)
    × (g : Reader) × (inode_read_at size true w.disk inode other size offset ≡ some g)
    × (g.bytes_read ≡ w.bytes_written)
    × ((p : ℕ) → p < w.bytes_written → g.buffer p ≡ buffer p)

-- A byte goes through the file.
through :
    (bytes got buffer : ℕ → ℕ) (o t p m x y : ℕ)
    → m ≡ t
    → p < t
    → got p ≡ (if leb 0 p && ltb p m then bytes (o + (p - 0)) else x)
    → bytes (o + p) ≡ (if leb o (o + p) && ltb (o + p) (o + t) then buffer (0 + (o + p - o)) else y)
    → got p ≡ buffer p
through bytes got buffer o t p m x y e l h f =
    let a : p - 0 ≡ p = omega arith in let b : 0 + (o + p - o) ≡ p = omega arith in ground arith

-- When inode_write_at() may write, inode_read_at() of as many bytes at the same offset reads as many as
-- were written, and they are those of the buffer that was written.
pub inode_write_at-inode_read_at :
    (disk : Disk) (inode : Inode) (buffer other : Bytes) (size offset : ℕ)
    → inode.deny_write_cnt ≡ 0
    → ReadsBack inode buffer other size offset
        (inode_write_at size true disk inode buffer size offset)
inode_write_at-inode_read_at disk inode buffer other size offset z =
    let (w, e, n, f, s) = (inode_write_at-bytes disk inode buffer size offset).0 z in
    let (g, d, m, h) = inode_read_at-bytes w.disk inode other size offset in
    (
      w,
      e,
      g,
      d,
      omega (arith, n, m),
      λ p l.
          through (byte_at w.disk inode) g.buffer buffer offset (todo inode size offset) p
            g.bytes_read (other p) (byte_at disk inode (offset + p)) (omega (arith, m))
            (omega (arith, n)) (h p) (f (offset + p)),
    )
