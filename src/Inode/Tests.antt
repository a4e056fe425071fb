-- ===== src/Inode/Tests.antt =====
-- A file of 1000 bytes in the sectors 7 and 8.
use os_tools_and_features.Prelude.{ℕ, ◌+◌, ◌*◌, ◌≡◌, ◌≢◌, Option, none, some, true, refl}
use os_tools_and_features.Inode.{
  Bytes, Disk, Inode, Reader, inode_read_at, read_loop, inode_write_at,
}
use os_tools_and_features.Inode.Reading.{ReadsTo, inode_read_at-bytes}
use os_tools_and_features.Inode.Writing.{WritesTo, inode_write_at-bytes}

abbrev file : Inode
file = record { open_cnt = 1; deny_write_cnt = 0; start = 7; length = 1000 }

abbrev disk : Disk
disk s j = 1000 * s + j

abbrev zeros : Bytes
zeros p = 0

inode_read_at-bytes_example :
    ReadsTo disk file
      (record { size = 700; offset = 400; bytes_read = 0; buffer = zeros })
      (inode_read_at 700 true disk file zeros 700 400)
inode_read_at-bytes_example = inode_read_at-bytes disk file zeros 700 400

inode_write_at-bytes_example :
    (file.deny_write_cnt ≡ 0
      → WritesTo zeros file
          (record { size = 700; offset = 400; bytes_written = 0; disk = disk })
          (inode_write_at 700 true disk file zeros 700 400))
    × (file.deny_write_cnt ≢ 0
        → inode_write_at 700 true disk file zeros 700 400
          ≡ some (record { size = 700; offset = 400; bytes_written = 0; disk = disk }))
inode_write_at-bytes_example = inode_write_at-bytes disk file zeros 700 400

-- How far a read of 700 bytes comes, and two of its bytes.
abbrev seen : Option Reader → ℕ × ℕ × ℕ
seen (some r) = (r.bytes_read, r.buffer 111, r.buffer 112)
seen none = (0, 0, 0)

seen-read : seen (inode_read_at 3 true disk file zeros 700 400) ≡ (600, 7511, 8000)
unfolding inode_read_at read_loop
seen-read = refl
