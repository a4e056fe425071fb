-- ===== src/Files/Positions.antt =====
-- proj-pregame/src/filesys/file.c: file_read() and file_write(), which move the position on.
use os_tools_and_features.Prelude.{
  ℕ, ◌+◌, ◌<◌, ◌≡◌, ◌≢◌, refl, sym, ap, subst, ◌∙◌, List, [], ◌∷◌, Option, none, some, Bool, true,
  false, ◌==◌, arith, ==_refl,
}
use os_tools_and_features.Prelude.Runs.{ok, ◌>>=◌, ◌>>◌}
use os_tools_and_features.Threads.{Ptr, null}
use os_tools_and_features.Threads.Invariant.{has}
use os_tools_and_features.Inode.{Bytes, Disk, Reader, Writer, inode_read_at, inode_write_at}
use os_tools_and_features.Inode.Place.{todo}
use os_tools_and_features.Inode.Writing.{inode_write_at-bytes}
use os_tools_and_features.Inode.RoundTrip.{inode_write_at-inode_read_at}
use os_tools_and_features.Files.{File, FileSystem, put, file_write, file_read, file_seek}
use os_tools_and_features.Files.Counts.{one, count, count_some}
use os_tools_and_features.Files.Openers.{denies, deny_write_cnt, Counted, live}

count_none :
    (p : Ptr → Bool) (xs : List Ptr) → ((x : Ptr) → has x xs ≡ true → p x ≡ false) → count p xs ≡ 0
count_none p [] h = refl
count_none p (x ∷ xs) h =
    let e = ap one (h x (ground arith)) in
    omega (arith, count_none p xs (λ y k. h y (ground arith)))

abbrev written : Option Writer → ℕ
written none = 0
written (some w) = w.bytes_written

abbrev moved_on : FileSystem → Ptr → Disk → ℕ → FileSystem
moved_on s f disk n = record s {
  disk = disk;
  file = put s.file f (record (s.file f) { pos = (s.file f).pos + n });
}

put_self : (file : Ptr → File) (f : Ptr) (v : File) → put file f v f ≡ v
put_self file f v = rw (==_refl f) refl

module _ (s : FileSystem) (f : Ptr) (buffer : Bytes) (size : ℕ) where
  file_write-ok :
      (w : Writer)
      → inode_write_at size true s.disk
          (s.inode (s.file f).inode).content
          buffer
          size
          (s.file f).pos
        ≡ some w
      → file_write size true f buffer size s
        ≡ ok w.bytes_written (moved_on s f w.disk w.bytes_written)
  unfolding file_write
  file_write-ok w e = rw e refl

  file_read-ok :
      (r : Reader)
      → inode_read_at size true s.disk (s.inode (s.file f).inode).content buffer size (s.file f).pos
        ≡ some r
      → file_read size true f buffer size s ≡ ok r (moved_on s f s.disk r.bytes_read)
  unfolding file_read
  file_read-ok r e = rw e refl

abbrev sought : FileSystem → Ptr → ℕ → FileSystem
sought s f p = record s { file = put s.file f (record (s.file f) { pos = p }) }

file_seek-ok :
    (s : FileSystem) (f : Ptr) (p : ℕ)
    → (f == null) ≡ false
    → file_seek f p s ≡ ok tt (sought s f p)
unfolding file_seek
file_seek-ok s f p z = rw z refl

module _ (s : FileSystem) (f : Ptr) (c : Counted s) (h : has f s.files ≡ true) where
  -- While an open file denies writes to an inode, file_write() to any open file of that inode writes no
  -- byte, and neither the disk nor the file's position changes.
  pub file_write-denied :
      (d : Ptr) (buffer : Bytes) (size : ℕ)
      → has d s.files ≡ true
      → denies s.file (s.file f).inode d ≡ true
      → (g : FileSystem) × (file_write size true f buffer size s ≡ ok 0 g)
        × (g.disk ≡ s.disk)
        × ((g.file f).pos ≡ (s.file f).pos)
  unfolding file_write
  file_write-denied d buffer size k e =
      let i = (s.file f).inode in
      let z = count_some (denies s.file i) d s.files k e in
      let n : deny_write_cnt s i ≢ 0 = λ v. omega (arith, c.denied i, z, v) in
      (
        moved_on s f s.disk 0,
        rw ((inode_write_at-bytes s.disk (s.inode i).content buffer size (s.file f).pos).1 n) refl,
        refl,
        rw (==_refl f) (omega arith),
      )

  -- While no open file denies writes to the inode of an open file, and when malloc() has memory for each
  -- bounce buffer that the write and the read ask for, file_write() writes up to SIZE bytes, as far as the
  -- file goes. With the position set back to where it was, file_read() of SIZE bytes then
  -- reads as many, and they are those of the buffer; it leaves the position behind them.
  pub file_write-file_read :
      (buffer other : Bytes) (size : ℕ)
      → ((d : Ptr) → has d s.files ≡ true → denies s.file (s.file f).inode d ≡ false)
      → (g : FileSystem) × (r : Reader) × ((file_write size true f buffer size >>= λ n.
              file_seek f (s.file f).pos >> file_read size true f other size)
            s
          ≡ ok r g)
        × (r.bytes_read ≡ todo (s.inode (s.file f).inode).content size (s.file f).pos)
        × ((p : ℕ) → p < r.bytes_read → r.buffer p ≡ buffer p)
        × ((g.file f).pos ≡ (s.file f).pos + r.bytes_read)
  file_write-file_read buffer other size free =
      let i = (s.file f).inode in
      let a : deny_write_cnt s i ≡ 0 = c.denied i ∙ count_none (denies s.file i) s.files free in
      let b = ((inode_write_at-bytes s.disk (s.inode i).content buffer size (s.file f).pos).0 a) in
      let (w, e, r, d, m, k) =
        inode_write_at-inode_read_at s.disk (s.inode i).content buffer other size (s.file f).pos
          a in
      let g1 = moved_on s f w.disk w.bytes_written in
      let g2 = sought g1 f (s.file f).pos in
      let v : g2.file f ≡ s.file f =
        put_self g1.file f _
        ∙ ap (λ (x : File). record x { pos = (s.file f).pos }) (put_self s.file f _) in
      let d' =
        subst
          (λ (x : File).
            inode_read_at size true w.disk (s.inode x.inode).content other size x.pos ≡ some r)
          (sym v) d in
      (
        moved_on g2 f w.disk r.bytes_read,
        r,
        rw (file_write-ok s f buffer size w e) (
            rw (file_seek-ok g1 f (s.file f).pos (live s f c h))
              (file_read-ok g2 f other size r d')),
        (let x = ap written (sym e ∙ b.1) in omega (arith, m, b.2)),
        (λ p l. k p (omega arith)),
        ap (λ (x : File). x.pos) (put_self g2.file f _) ∙ ap (λ (x : File). x.pos + r.bytes_read) v,
      )
