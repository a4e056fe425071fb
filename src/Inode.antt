-- ===== src/Inode.antt =====
-- proj-pregame/src/filesys/inode.c: reading and writing the bytes of a file. The disk is the bytes of
-- its sectors. The loops run on fuel; `size` rounds are enough, since each moves a byte or more.
pub mod Place
pub mod Reading
pub mod Writing
pub mod RoundTrip
pub mod Tests
use os_tools_and_features.Prelude.{
  ℕ, zero, suc, ◌+◌, ◌-◌, ◌/◌, ◌%◌, Option, none, some, Bool, true, false, not, ◌&&◌, ◌||◌, ◌==◌,
  ltb, leb, if◌then◌else◌,
}

abbrev pub block_sector_size : ℕ
block_sector_size = 512

abbrev pub Bytes : Type 0
Bytes = ℕ → ℕ

abbrev pub Disk : Type 0
Disk = ℕ → Bytes

pub record Inode : Type 0 where
  pub open_cnt : ℕ
  pub deny_write_cnt : ℕ
  pub start : ℕ
  pub length : ℕ

abbrev pub sector_of : Inode → ℕ → ℕ
sector_of inode pos = inode.start + pos / block_sector_size

abbrev pub lesser : ℕ → ℕ → ℕ
lesser a b = if ltb a b then a else b

-- Stops at 0 where the code has a number below it, and breaks off.
abbrev pub chunk_size : Inode → ℕ → ℕ → ℕ
chunk_size inode size offset =
    lesser size (lesser (inode.length - offset) (block_sector_size - offset % block_sector_size))

-- memcpy(to + at, from, cnt)
abbrev pub memcpy : Bytes → ℕ → Bytes → ℕ → Bytes
memcpy to at from cnt p = if leb at p && ltb p (at + cnt) then from (p - at) else to p

abbrev pub is_full : ℕ → ℕ → Bool
is_full offset chunk = offset % block_sector_size == 0 && chunk == block_sector_size

pub record Reader : Type 0 where
  pub size : ℕ
  pub offset : ℕ
  pub bytes_read : ℕ
  pub buffer : Bytes

-- One round that reads `chunk` bytes: a full sector, or a part of one through the bounce buffer.
abbrev pub read_chunk : Disk → Inode → ℕ → Reader → Reader
read_chunk disk inode chunk r = record {
  size = r.size - chunk;
  offset = r.offset + chunk;
  bytes_read = r.bytes_read + chunk;
  buffer =
      if is_full r.offset chunk
      then memcpy r.buffer r.bytes_read (disk (sector_of inode r.offset)) block_sector_size
      else memcpy r.buffer r.bytes_read
          (λ j. disk (sector_of inode r.offset) (r.offset % block_sector_size + j)) chunk;
}

-- The loop leaves off at the end of the file, or if malloc() has no bounce buffer when it needs one.
abbrev pub stops : Bool → Inode → ℕ → ℕ → Bool
stops malloc inode size offset =
    size == 0
    || chunk_size inode size offset == 0
    || not (is_full offset (chunk_size inode size offset)) && not malloc

pub read_loop : ℕ → Bool → Disk → Inode → Reader → Option Reader
read_loop zero malloc disk inode r = if stops malloc inode r.size r.offset then some r else none
read_loop (suc k) malloc disk inode r =
    let rest =
      read_loop k malloc disk inode (read_chunk disk inode (chunk_size inode r.size r.offset) r) in
    if stops malloc inode r.size r.offset then some r else rest

pub inode_read_at : ℕ → Bool → Disk → Inode → Bytes → ℕ → ℕ → Option Reader
unfolding read_loop
inode_read_at k malloc disk inode buffer size offset =
    read_loop k malloc disk inode
      (record { size = size; offset = offset; bytes_read = 0; buffer = buffer })

pub record Writer : Type 0 where
  pub size : ℕ
  pub offset : ℕ
  pub bytes_written : ℕ
  pub disk : Disk

abbrev pub block_write : Disk → ℕ → Bytes → Disk
block_write disk sector bytes s = if s == sector then bytes else disk s

-- The bounce buffer has the sector, unless the chunk covers all of it.
abbrev pub bounce_of : Disk → ℕ → ℕ → ℕ → Bytes
bounce_of disk sector offset chunk =
    if ltb 0 (offset % block_sector_size)
      || ltb chunk (block_sector_size - offset % block_sector_size)
    then disk sector
    else λ j. 0

abbrev pub write_chunk : Bytes → Inode → ℕ → Writer → Writer
write_chunk buffer inode chunk w = record {
  size = w.size - chunk;
  offset = w.offset + chunk;
  bytes_written = w.bytes_written + chunk;
  disk = block_write w.disk (sector_of inode w.offset) (
      if is_full w.offset chunk
      then (λ j. buffer (w.bytes_written + j))
      else memcpy (bounce_of w.disk (sector_of inode w.offset) w.offset chunk)
          (w.offset % block_sector_size) (λ j. buffer (w.bytes_written + j)) chunk);
}

pub write_loop : ℕ → Bool → Bytes → Inode → Writer → Option Writer
write_loop zero malloc buffer inode w = if stops malloc inode w.size w.offset then some w else none
write_loop (suc k) malloc buffer inode w =
    let rest =
      write_loop k malloc buffer inode
        (write_chunk buffer inode (chunk_size inode w.size w.offset) w) in
    if stops malloc inode w.size w.offset then some w else rest

pub inode_write_at : ℕ → Bool → Disk → Inode → Bytes → ℕ → ℕ → Option Writer
unfolding write_loop
inode_write_at k malloc disk inode buffer size offset =
    let w : Writer = record { size = size; offset = offset; bytes_written = 0; disk = disk } in
    if not (inode.deny_write_cnt == 0) then some w else write_loop k malloc buffer inode w
