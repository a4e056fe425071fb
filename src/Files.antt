-- ===== src/Files.antt =====
-- proj-pregame/src/filesys/file.c, with the reference counts of inode.c. Open files and inodes stand at
-- addresses, and what malloc() and calloc() return is an argument: an address, or none. A failed ASSERT
-- is `panics`. The calls of free_map_release() are recorded.
pub mod Counts
pub mod Openers
pub mod Closing
pub mod Positions
pub mod Tests
use os_tools_and_features.Prelude.{
  ℕ, zero, suc, ◌+◌, ◌-◌, ◌*◌, ◌/◌, Option, none, some, List, [], ◌∷◌, Bool, true, false, not, ◌&&◌,
  ◌||◌, ◌==◌, ltb, leb, if◌then◌else◌,
}
use os_tools_and_features.Prelude.Runs.{
  Run, ok, panics, running, Cmd, and_then, ◌>>=◌, ◌>>◌, pure, assert,
}
use os_tools_and_features.Threads.{Ptr, null}
use os_tools_and_features.Inode.{
  Bytes, Disk, Inode, Reader, Writer, block_sector_size, inode_read_at, inode_write_at,
}

-- An in-memory inode: its sector, whether it is deleted, and the counts with `start` and `length`.
pub record OpenInode : Type 0 where
  pub sector : ℕ
  pub removed : Bool
  pub content : Inode

pub record File : Type 0 where
  pub inode : Ptr
  pub pos : ℕ
  pub deny_write : Bool

pub record Extent : Type 0 where
  pub first : ℕ
  pub cnt : ℕ

-- `files` are the open files.
pub record FileSystem : Type 0 where
  pub files : List Ptr
  pub file : Ptr → File
  pub open_inodes : List Ptr
  pub inode : Ptr → OpenInode
  pub disk : Disk
  pub released : List Extent

abbrev pub put : {A : Type 0} → (Ptr → A) → Ptr → A → Ptr → A
put f a v p = if p == a then v else f p

abbrev pub without : Ptr → List Ptr → List Ptr
without a [] = []
without a (x ∷ xs) = if x == a then xs else x ∷ without a xs

abbrev pub set_file : Ptr → File → Cmd FileSystem (Unit {0})
set_file f v s = ok tt (record s { file = put s.file f v })

abbrev pub set_data : Ptr → Inode → Cmd FileSystem (Unit {0})
set_data i d s = ok tt (record s { inode = put s.inode i (record (s.inode i) { content = d }) })

abbrev pub get_file : Ptr → Cmd FileSystem File
get_file f s = ok (s.file f) s

abbrev pub get_inode : Ptr → Cmd FileSystem OpenInode
get_inode i s = ok (s.inode i) s

abbrev pub get_state : Cmd FileSystem FileSystem
get_state s = ok s s

abbrev pub bytes_to_sectors : ℕ → ℕ
bytes_to_sectors size = (size + (block_sector_size - 1)) / block_sector_size

abbrev pub free_map_release : ℕ → ℕ → Cmd FileSystem (Unit {0})
free_map_release sector cnt s =
    ok tt (record s { released = record { first = sector; cnt = cnt } ∷ s.released })

unfoldable pub inode_reopen : Ptr → Cmd FileSystem Ptr
inode_reopen i = if i == null then pure i else do
  v ← get_inode i
  set_data i (record (v.content) { open_cnt = suc v.content.open_cnt })
  pure i

-- The end of inode_close(), for the last opener.
abbrev pub inode_free : Ptr → Cmd FileSystem (Unit {0})
inode_free i = do
  v ← get_inode i
  (λ s. ok tt (record s { open_inodes = without i s.open_inodes }))
  if v.removed
      then (do
        free_map_release v.sector 1
        free_map_release v.content.start (bytes_to_sectors v.content.length))
      else pure tt

unfoldable pub inode_close : Ptr → Cmd FileSystem (Unit {0})
inode_close i = if i == null then pure tt else do
  v ← get_inode i
  set_data i (record (v.content) { open_cnt = v.content.open_cnt - 1 })
  if v.content.open_cnt == 1 then inode_free i else pure tt

unfoldable pub inode_remove : Ptr → Cmd FileSystem (Unit {0})
inode_remove i = do
  assert (not (i == null))
  λ s. ok tt (record s { inode = put s.inode i (record (s.inode i) { removed = true }) })

-- The search of inode_open().
abbrev pub find_open : (Ptr → OpenInode) → ℕ → List Ptr → Option Ptr
find_open inode sector [] = none
find_open inode sector (i ∷ is) =
    if (inode i).sector == sector then some i else find_open inode sector is

-- `read` is what block_read() finds in the sector.
abbrev pub open_new : Option Ptr → ℕ → Inode → Cmd FileSystem Ptr
open_new none sector read s = ok null s
open_new (some i) sector read s = ok i (record s {
  open_inodes = i ∷ s.open_inodes;
  inode = put s.inode i (record {
    sector = sector;
    removed = false;
    content = record read { open_cnt = 1; deny_write_cnt = 0 };
  });
})

unfoldable pub inode_open : Option Ptr → Inode → ℕ → Cmd FileSystem Ptr
inode_open malloc read sector = do
  s ← get_state
  elim (find_open s.inode sector s.open_inodes) [
    | some i ↦ inode_reopen i
    | none ↦ open_new malloc sector read
  ]

unfoldable pub inode_deny_write : Ptr → Cmd FileSystem (Unit {0})
inode_deny_write i = do
  v ← get_inode i
  set_data i (record (v.content) { deny_write_cnt = suc v.content.deny_write_cnt })
  assert (leb (suc v.content.deny_write_cnt) v.content.open_cnt)

unfoldable pub inode_allow_write : Ptr → Cmd FileSystem (Unit {0})
inode_allow_write i = do
  v ← get_inode i
  assert (ltb 0 v.content.deny_write_cnt)
  assert (leb v.content.deny_write_cnt v.content.open_cnt)
  set_data i (record (v.content) { deny_write_cnt = v.content.deny_write_cnt - 1 })

abbrev pub new_file : Ptr → Ptr → Cmd FileSystem Ptr
new_file f i s = ok f (record s {
  files = f ∷ s.files;
  file = put s.file f (record { inode = i; pos = 0; deny_write = false });
})

unfoldable pub file_open : Option Ptr → Ptr → Cmd FileSystem Ptr
file_open none i = do inode_close i; pure null
file_open (some f) i = if i == null then (do inode_close i; pure null) else new_file f i

unfoldable pub file_reopen : Option Ptr → Ptr → Cmd FileSystem Ptr
file_reopen calloc f = do v ← get_file f; i ← inode_reopen v.inode; file_open calloc i

unfoldable pub file_deny_write : Ptr → Cmd FileSystem (Unit {0})
file_deny_write f = do
  assert (not (f == null))
  v ← get_file f
  if not v.deny_write
      then (do set_file f (record v { deny_write = true }); inode_deny_write v.inode)
      else pure tt

unfoldable pub file_allow_write : Ptr → Cmd FileSystem (Unit {0})
file_allow_write f = do
  assert (not (f == null))
  v ← get_file f
  if v.deny_write
      then (do set_file f (record v { deny_write = false }); inode_allow_write v.inode)
      else pure tt

unfoldable pub file_close : Ptr → Cmd FileSystem (Unit {0})
file_close f = if f == null then pure tt else do
  file_allow_write f
  v ← get_file f
  inode_close v.inode
  λ s. ok tt (record s { files = without f s.files })

-- The state after a write is that of inode_write_at(), with the position moved on.
abbrev pub wrote : Ptr → Option Writer → Cmd FileSystem ℕ
wrote f none s = running
wrote f (some w) s = ok w.bytes_written (record s {
  disk = w.disk;
  file = put s.file f (record (s.file f) { pos = (s.file f).pos + w.bytes_written });
})

unfoldable pub file_write : ℕ → Bool → Ptr → Bytes → ℕ → Cmd FileSystem ℕ
file_write k malloc f buffer size = do
  v ← get_file f
  i ← get_inode v.inode
  s ← get_state
  wrote f (inode_write_at k malloc s.disk i.content buffer size v.pos)

-- What a read leaves in the buffer is returned with the number of bytes.
abbrev pub was_read : Ptr → Option Reader → Cmd FileSystem Reader
was_read f none s = running
was_read f (some r) s =
    ok r
      (record s { file = put s.file f (record (s.file f) { pos = (s.file f).pos + r.bytes_read }) })

unfoldable pub file_read : ℕ → Bool → Ptr → Bytes → ℕ → Cmd FileSystem Reader
file_read k malloc f buffer size = do
  v ← get_file f
  i ← get_inode v.inode
  s ← get_state
  was_read f (inode_read_at k malloc s.disk i.content buffer size v.pos)

unfoldable pub file_length : Ptr → Cmd FileSystem ℕ
file_length f = do
  assert (not (f == null))
  v ← get_file f
  i ← get_inode v.inode
  pure i.content.length

unfoldable pub file_seek : Ptr → ℕ → Cmd FileSystem (Unit {0})
file_seek f new_pos = do
  assert (not (f == null))
  v ← get_file f
  set_file f (record v { pos = new_pos })

unfoldable pub file_tell : Ptr → Cmd FileSystem ℕ
file_tell f = do assert (not (f == null)); v ← get_file f; pure v.pos
